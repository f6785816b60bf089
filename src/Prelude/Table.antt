-- ===== src/Prelude/Table.antt =====
-- Go maps with numbers as keys: association lists, one entry for a key where only `insert` and
-- `delete` build them. A missing key reads as `none` (nil).
use barnard_stormdragon_ai_f.Prelude.{
  ℕ, ◌≡◌, ◌≢◌, refl, List, [], ◌∷◌, Option, none, some, if◌then◌else◌, ◌==◌, arith, map, ◌∙◌, ap,
}
use native.Mathlib.Decide.{ℕ_discrete}

abbrev pub Table {ℓ} : Type ℓ → Type ℓ
Table A = List (ℕ × A)

module _ {ℓ} {A : Type ℓ} where
  unfoldable pub lookup : ℕ → Table A → Option A
  lookup k [] = none
  lookup k ((j, v) ∷ t) = let rest = lookup k t in if j == k then some v else rest

  unfoldable pub delete : ℕ → Table A → Table A
  delete k [] = []
  delete k ((j, v) ∷ t) = let rest = delete k t in if j == k then rest else (j, v) ∷ rest

  unfoldable pub insert : ℕ → A → Table A → Table A
  unfolding delete
  insert k v t = (k, v) ∷ delete k t

  -- The keys, in the order of a range over the map.
  unfoldable pub keys : Table A → List ℕ
  keys t = map (λ e. e.0) t

  pub lookup-delete_self : (k : ℕ) (t : Table A) → lookup k (delete k t) ≡ none
  unfolding lookup delete
  lookup-delete_self k [] = refl
  lookup-delete_self k ((j, v) ∷ t) = ground (arith, lookup-delete_self k t)

  pub lookup-delete_ne : (k j : ℕ) (t : Table A) → k ≢ j → lookup j (delete k t) ≡ lookup j t
  unfolding lookup delete
  lookup-delete_ne k j [] h = refl
  lookup-delete_ne k j ((i, v) ∷ t) h = ground (arith, lookup-delete_ne k j t h)

  pub lookup-insert_self : (k : ℕ) (v : A) (t : Table A) → lookup k (insert k v t) ≡ some v
  unfolding lookup insert
  lookup-insert_self k v t = ground arith

  pub lookup-insert_ne :
      (k j : ℕ) (v : A) (t : Table A) → k ≢ j → lookup j (insert k v t) ≡ lookup j t
  unfolding lookup insert
  lookup-insert_ne k j v t h = ground (arith, lookup-delete_ne k j t h)

  pub lookup-insert :
      (k j : ℕ) (v : A) (t : Table A)
      → lookup j (insert k v t) ≡ (if k == j then some v else lookup j t)
  lookup-insert k j v t = elim (ℕ_discrete k j) [
    | yes e ↦ rw e (lookup-insert_self j v t ∙ ground arith)
    | no h ↦ lookup-insert_ne k j v t h ∙ ground arith
  ]

  pub lookup-delete :
      (k j : ℕ) (t : Table A) → lookup j (delete k t) ≡ (if k == j then none else lookup j t)
  lookup-delete k j t = elim (ℕ_discrete k j) [
    | yes e ↦ rw e (lookup-delete_self j t ∙ ground arith)
    | no h ↦ lookup-delete_ne k j t h ∙ ground arith
  ]

-- A change at one index of a store.
unfoldable pub change {ℓ} : {A : Type ℓ} → (ℕ → A) → ℕ → (A → A) → ℕ → A
change store r f j = let old = store j in let new = f (store j) in if r == j then new else old

pub change_self {ℓ} :
    {A : Type ℓ} (store : ℕ → A) (r : ℕ) (f : A → A) → change store r f r ≡ f (store r)
unfolding change
change_self store r f = ground arith

pub change_ne {ℓ} :
    {A : Type ℓ} (store : ℕ → A) (r j : ℕ) (f : A → A) → r ≢ j → change store r f j ≡ store j
unfolding change
change_ne store r j f h = ground arith

-- A field that an edit does not touch, and one that it may touch.
pub change-field :
    {A B : Type 0} (field : A → B) (at : ℕ → A) (q x : ℕ) (f : A → A)
    → ((c : A) → field (f c) ≡ field c)
    → field (change at q f x) ≡ field (at x)
change-field field at q x f h = elim (ℕ_discrete q x) [
  | yes e ↦ rw e (ap field (change_self at x f) ∙ h (at x))
  | no n ↦ ap field (change_ne at q x f n)
]

pub field_changed :
    {A B : Type 0} (field : A → B) (at : ℕ → A) (q x : ℕ) (f : A → A)
    → field (change at q f x) ≡ (if q == x then field (f (at x)) else field (at x))
field_changed field at q x f = elim (ℕ_discrete q x) [
  | yes e ↦ rw e (ap field (change_self at x f) ∙ ground arith)
  | no n ↦ ap field (change_ne at q x f n) ∙ ground arith
]
