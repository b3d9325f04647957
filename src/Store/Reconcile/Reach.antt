-- ===== src/Store/Reconcile/Reach.antt =====
-- Lemmas on loops that come to one of their elements, and on the groups of `membersByDomain` of
-- internal/store/store.go.
use wireguard_natter_helper.Prelude.{
  if◌then◌else◌, Bool-cases, Option-cases, keep_if, All, for_each, for_each_inv, split_if, String,
  ◌≡◌, refl, sym, ap, ◌∙◌, subst, inl, inr, Bool, true, Option, none, some, List, [], ◌∷◌, ◌++◌,
  Memᴰ, arith, ◌==◌, eq_iff, eq_refl,
}
use wireguard_natter_helper.Map.{Map, get?, get_or, set}
use wireguard_natter_helper.Map.Lookup.{get?-set}
use wireguard_natter_helper.Store.Config.{Node, DomainMember}
use wireguard_natter_helper.Store.Domains.{nodes}
use wireguard_natter_helper.Store.Reconcile.{is_candidate, add_candidate, members_by_domain}

-- What the body brings about for one element, and keeps for the others, holds after the loop.
pub for_each-reaches {ℓ κ μ ν ο} :
    {A : Type ℓ} {S : Type κ} (R : A → Type μ) (P : S → Type ν) (Q : S → Type ο) (f : A → S → S)
    → ((x : A) (s : S) → R x → P s → P (f x s))
    → ((x : A) (s : S) → R x → Q s → Q (f x s))
    → (x : A) → ((s : S) → P s → Q (f x s))
    → (xs : List A) (s : S) → All R xs
    → Memᴰ x xs
    → P s
    → Q (for_each f xs s)
unfolding for_each
for_each-reaches R P Q f keep_p keep_q x hit [] s rs m h = elim m [ ]
for_each-reaches R P Q f keep_p keep_q x hit (y ∷ ys) s (r, rs) (Memᴰ.head e) h =
    for_each_inv R Q f keep_q ys (f y s) rs (subst (λ z. Q (f z s)) e (hit s h))
for_each-reaches R P Q f keep_p keep_q x hit (y ∷ ys) s (r, rs) (Memᴰ.tail m) h =
    for_each-reaches R P Q f keep_p keep_q x hit ys (f y s) rs m (keep_p y s r h)

pub Mem-keep_if {ℓ} :
    {A : Type ℓ} (p : A → Bool) (x : A) (xs : List A)
    → p x ≡ true
    → Memᴰ x xs
    → Memᴰ x (keep_if p xs)
unfolding keep_if
Mem-keep_if p x [] e m = elim m [ ]
Mem-keep_if p x (y ∷ ys) e (Memᴰ.head same) = rw (keep_if, sym (ap p same) ∙ e) (Memᴰ.head same)
Mem-keep_if p x (y ∷ ys) e (Memᴰ.tail m) = elim (Bool-cases (p y)) [
  | inl kept ↦ rw (keep_if, kept) (Memᴰ.tail (Mem-keep_if p x ys e m))
  | inr gone ↦ rw (keep_if, gone) (Mem-keep_if p x ys e m)
]

Mem-append {ℓ} : {A : Type ℓ} (x : A) (xs ys : List A) → Memᴰ x xs → Memᴰ x (xs ++ ys)
Mem-append x [] ys m = elim m [ ]
Mem-append x (z ∷ xs) ys (Memᴰ.head e) = Memᴰ.head e
Mem-append x (z ∷ xs) ys (Memᴰ.tail m) = Memᴰ.tail (Mem-append x xs ys m)

Mem-last {ℓ} : {A : Type ℓ} (x : A) (xs : List A) → Memᴰ x (xs ++ x ∷ [])
Mem-last x [] = Memᴰ.head refl
Mem-last x (z ∷ xs) = Memᴰ.tail (Mem-last x xs)

get_or-set {ℓ} :
    {V : Type ℓ} (k j : String) (d v : V) (m : Map V)
    → get_or j d (set k v m) ≡ (if k == j then v else get_or j d m)
get_or-set k j d v m = elim (Bool-cases (k == j)) [
  | inl e ↦ rw (get_or, get?-set k j v m, e) refl
  | inr e ↦ rw (get_or, get?-set k j v m, e) refl
]

-- The member stands in the group of its domain.
abbrev pub InGroup : DomainMember → Map (List DomainMember) → Type 0
InGroup m groups = Memᴰ m (get_or m.domain_id [] groups)

add_candidate-InGroup :
    (nodes : Map Node) (m other : DomainMember) (groups : Map (List DomainMember))
    → InGroup m groups
    → InGroup m (add_candidate nodes other groups)
unfolding add_candidate
add_candidate-InGroup nodes m other groups h =
    split_if (InGroup m) (is_candidate nodes other)
      (λ _.
        subst (Memᴰ m)
          (sym (
            get_or-set other.domain_id m.domain_id []
              (get_or other.domain_id [] groups ++ other ∷ []) groups))
          (split_if (Memᴰ m) (other.domain_id == m.domain_id)
            (λ e. Mem-append m _ (other ∷ []) (
              subst (λ d. Memᴰ m (get_or d [] groups))
                (sym ((eq_iff other.domain_id m.domain_id).0 e)) h))
            (λ _. h)))
      (λ _. h)

candidate-InGroup :
    (nodes : Map Node) (m : DomainMember) (groups : Map (List DomainMember))
    → is_candidate nodes m ≡ true
    → InGroup m (add_candidate nodes m groups)
unfolding add_candidate
candidate-InGroup nodes m groups e =
    rw (add_candidate, e)
      (subst (Memᴰ m)
        (sym
          (get_or-set m.domain_id m.domain_id [] (get_or m.domain_id [] groups ++ m ∷ []) groups))
        (rw (eq_refl m.domain_id) (Mem-last m (get_or m.domain_id [] groups))))

All-any {ℓ} : {A : Type ℓ} (xs : List A) → All (λ x. Unit {0}) xs
All-any [] = tt
All-any (x ∷ xs) = (tt, All-any xs)

pub grouped :
    (nodes : Map Node) (members : List DomainMember) (m : DomainMember)
    → Memᴰ m members
    → is_candidate nodes m ≡ true
    → InGroup m (members_by_domain nodes members)
unfolding members_by_domain
grouped nodes members m listed e =
    for_each-reaches (λ x. Unit {0}) (λ groups. Unit {0}) (InGroup m) (add_candidate nodes)
      (λ x groups _ _. tt) (λ x groups _ h. add_candidate-InGroup nodes m x groups h) m
      (λ groups _. candidate-InGroup nodes m groups e) members [] (All-any members) listed tt

get?-Mem {ℓ} : {V : Type ℓ} (k : String) (v : V) (m : Map V) → get? k m ≡ some v → Memᴰ (k, v) m
unfolding get?
get?-Mem k v [] e = ground arith
get?-Mem k v ((j, w) ∷ m) e = elim (Bool-cases (j == k)) [
  | inl same ↦ Memᴰ.head (ground (arith, eq_iff j k))
  | inr other ↦ Memᴰ.tail (get?-Mem k v m (ground arith))
]

-- A group that has a member is an entry of the map.
pub group-Mem :
    (d : String) (m : DomainMember) (groups : Map (List DomainMember))
    → Memᴰ m (get_or d [] groups)
    → Memᴰ (d, get_or d [] groups) groups
group-Mem d m groups h = elim (Option-cases (get? d groups)) [
  | inl e ↦
      elim (subst (λ (o : Option (List DomainMember)). Memᴰ m (elim o [ none ↦ [] | some v ↦ v ])) e
        h) [ ]
  | inr (ms, e) ↦ rw (get_or, e) (get?-Mem d ms groups e)
]
