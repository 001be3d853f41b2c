-- ===== src/Config/Tree/Children.antt =====
-- The lists of children: finding a child by its key, and at an index.
use samconf.Common.{
  ap, ℕ, zero, suc, ◌+◌, ◌≤◌, true, [], ◌∷◌, none, some, ◌≡◌, refl, arith, if◌then◌else◌, ◌==◌,
}
use samconf.Text.{Bytes}
use samconf.Config.{
  Node, Config, config, Children, nil, cons, Position, node, child_count, append_child, link,
  child_at, modify_child, modify_at,
}
use samconf.Config.Get.{key_is, find_child}

pub le-find_child :
    (seg : Bytes) (cs : Children) (i k : ℕ) (c : Config) → find_child seg cs i ≡ some (k, c) → i ≤ k
unfolding find_child
le-find_child seg nil i k c h = cc
le-find_child seg (cons d cs) i k c h = ground (arith, le-find_child seg cs (i + 1) k c)

pub find_child-at :
    (seg : Bytes) (cs : Children) (i j k : ℕ) (c : Config)
    → find_child seg cs i ≡ some (j, c)
    → i + k ≡ j
    → (child_at cs k ≡ some c) × (key_is (node c).key seg ≡ true)
unfolding find_child
find_child-at seg nil i j k c h e = cc
find_child-at seg (cons d cs) i j zero c h e = ground (arith, le-find_child seg cs (i + 1) j c)
find_child-at seg (cons d cs) i j (suc k) c h e = ground (arith, find_child-at seg cs (i + 1) j k c)

-- The child that a search finds stands at the index that it gives, and has the key.
pub find_child-child_at :
    (seg : Bytes) (cs : Children) (k : ℕ) (c : Config)
    → find_child seg cs 0 ≡ some (k, c)
    → (child_at cs k ≡ some c) × (key_is (node c).key seg ≡ true)
find_child-child_at seg cs k c h = find_child-at seg cs 0 k k c h (omega arith)

-- A write at a child that leaves its key.
pub find_child-modify_none :
    (seg : Bytes) (cs : Children) (i j : ℕ) (g : Config → Config)
    → ((d : Config) → (node (g d)).key ≡ (node d).key)
    → find_child seg cs i ≡ none
    → find_child seg (modify_child cs j g) i ≡ none
unfolding find_child
find_child-modify_none seg nil i j g keep h = h
find_child-modify_none seg (cons d cs) i zero g keep h = rw (keep d) (ground arith)
find_child-modify_none seg (cons d cs) i (suc j) g keep h =
    ground (arith, find_child-modify_none seg cs (i + 1) j g keep)

pub find_child-modify_key :
    (seg : Bytes) (cs : Children) (i j k : ℕ) (c : Config) (g : Config → Config)
    → ((d : Config) → (node (g d)).key ≡ (node d).key)
    → find_child seg cs i ≡ some (k, c)
    → find_child seg (modify_child cs j g) i ≡ some (k, if k == i + j then g c else c)
unfolding find_child
find_child-modify_key seg nil i j k c g keep h = cc
find_child-modify_key seg (cons d cs) i zero k c g keep h =
    rw (keep d) (ground (arith, le-find_child seg cs (i + 1) k c))
find_child-modify_key seg (cons d cs) i (suc j) k c g keep h =
    ground (arith, find_child-modify_key seg cs (i + 1) j k c g keep)

pub find_child-modify :
    (seg : Bytes) (cs : Children) (i j k : ℕ) (c : Config) (g : Config → Config)
    → ((d : Config) → node (g d) ≡ node d)
    → find_child seg cs i ≡ some (k, c)
    → find_child seg (modify_child cs j g) i ≡ some (k, if k == i + j then g c else c)
find_child-modify seg cs i j k c g keep h =
    find_child-modify_key seg cs i j k c g (λ d. ap (λ (n : Node). n.key) (keep d)) h

pub find_child-append :
    (seg : Bytes) (cs : Children) (i k : ℕ) (c d : Config)
    → find_child seg cs i ≡ some (k, c)
    → find_child seg (append_child cs d) i ≡ some (k, c)
unfolding find_child
find_child-append seg nil i k c d h = cc
find_child-append seg (cons e cs) i k c d h = ground (arith, find_child-append seg cs (i + 1) k c d)

pub find_child-append_none :
    (seg : Bytes) (cs : Children) (i j : ℕ) (d : Config)
    → find_child seg cs i ≡ none
    → key_is (node d).key seg ≡ true
    → i + child_count cs ≡ j
    → find_child seg (append_child cs d) i ≡ some (j, d)
unfolding find_child
find_child-append_none seg nil i j d h e p = ground arith
find_child-append_none seg (cons c cs) i j d h e p =
    ground (arith, find_child-append_none seg cs (i + 1) j d)

pub node-link : (d c : Config) → node (link d c) ≡ node c
node-link d (config n cs) = refl

pub node-modify_at :
    (c : Config) (p : Position) (f : Config → Config)
    → ((d : Config) → node (f d) ≡ node d)
    → node (modify_at c p f) ≡ node c
unfolding modify_at
node-modify_at c [] f keep = keep c
node-modify_at (config n cs) (i ∷ p) f keep = refl
