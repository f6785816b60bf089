-- ===== src/Listeners/Removal.antt =====
-- Taking one out of a list without repetition, for the linked list of gumble/gumble/listeners.go.
use barnard_stormdragon_ai_f.Prelude.{
  ℕ, ◌≡◌, ◌≢◌, ◌≤◌, refl, sym, ap, ◌∙◌, List, [], ◌∷◌, ◌++◌, Option, none, some, true, false,
  if◌then◌else◌, if_ind, ◌==◌, Bool-cases, inl, inr, arith, length,
}
use native.Mathlib.Decide.{ℕ_discrete}
use barnard_stormdragon_ai_f.Listeners.{or_else, or_keep}
use barnard_stormdragon_ai_f.Listeners.Order.{
  among, distinct, first, last, after, before, remove, names, last-among, fresh_head, unnamed,
}

-- Taking one out.
pub among-remove :
    (x r : ℕ) (xs : List ℕ)
    → distinct xs ≡ true
    → among x (remove r xs) ≡ (if r == x then false else among x xs)
unfolding among remove distinct
among-remove x r [] d = grind arith
among-remove x r (a ∷ xs) d = grind (arith, d, among-remove x r xs)

pub distinct-remove : (r : ℕ) (xs : List ℕ) → distinct xs ≡ true → distinct (remove r xs) ≡ true
unfolding remove distinct among
distinct-remove r [] d = refl
distinct-remove r (a ∷ xs) d = grind (arith, d, among-remove a r xs, distinct-remove r xs)

pub first-remove :
    (r : ℕ) (xs : List ℕ)
    → among r xs ≡ true
    → first (remove r xs) ≡ (if names (first xs) r then after xs r else first xs)
unfolding remove first after names among
first-remove r [] h = absurd (cc h)
first-remove r (a ∷ xs) h = grind arith

pub last-remove :
    (r : ℕ) (p : Option ℕ) (xs : List ℕ)
    → distinct xs ≡ true
    → among r xs ≡ true
    → last p (remove r xs) ≡ (if names (last p xs) r then before p xs r else last p xs)
unfolding remove last before names among distinct
last-remove r p [] d h = absurd (cc h)
last-remove r p (a ∷ []) d h = grind (arith, h)
last-remove r p (a ∷ b ∷ xs) d h = elim (ℕ_discrete a r) [
  | yes e ↦
      let other : names (last (some b) xs) r ≡ false =
        rw (← e) (unnamed a b xs (fresh_head a (b ∷ xs) d)) in
      rw other (grind arith)
  | no n ↦
      let ih = last-remove r (some a) (b ∷ xs) (grind (arith, d)) (grind (arith, h)) in
      grind (arith, ih)
]

first-among : (x : ℕ) (xs : List ℕ) → names (first xs) x ≡ true → among x xs ≡ true
unfolding first names among
first-among x [] h = absurd (cc h)
first-among x (a ∷ xs) h = grind (arith, h)

after-among : (x r : ℕ) (xs : List ℕ) → names (after xs r) x ≡ true → among x xs ≡ true
unfolding after names among
after-among x r [] h = absurd (cc h)
after-among x r (a ∷ xs) h = grind (arith, h, first-among x xs, after-among x r xs)

before-among :
    (x b r : ℕ) (xs : List ℕ) → names (before (some b) xs r) x ≡ true → among x (b ∷ xs) ≡ true
unfolding before names among
before-among x b r [] h = absurd (cc h)
before-among x b r (a ∷ xs) h = grind (arith, h, before-among x a r xs)

unnamed_before :
    (a b r : ℕ) (xs : List ℕ) → among a (b ∷ xs) ≡ false → names (before (some b) xs r) a ≡ false
unnamed_before a b r xs h = elim (Bool-cases (names (before (some b) xs r) a)) [
  | inl e ↦ absurd (cc (sym (before-among a b r xs e), h))
  | inr e ↦ e
]

unnamed_after : (a r : ℕ) (xs : List ℕ) → among a xs ≡ false → names (after xs r) a ≡ false
unnamed_after a r xs h = elim (Bool-cases (names (after xs r) a)) [
  | inl e ↦ absurd (cc (sym (after-among a r xs e), h))
  | inr e ↦ e
]

pub after-remove :
    (x r : ℕ) (p : Option ℕ) (xs : List ℕ)
    → distinct xs ≡ true
    → among r xs ≡ true
    → among x xs ≡ true
    → r ≢ x
    → names p x ≡ false
    → after (remove r xs) x ≡ (if names (before p xs r) x then after xs r else after xs x)
unfolding remove after before names among distinct first
after-remove x r p [] d h k n q = absurd (cc h)
after-remove x r p (a ∷ []) d h k n q = absurd (n (grind (arith, h, k)))
after-remove x r p (a ∷ b ∷ xs) d h k n q = elim (ℕ_discrete a r) [
  | yes e ↦ grind (arith, q)
  | no m ↦ elim (ℕ_discrete a x) [
    | yes e ↦
        let other = unnamed_before a b r xs (fresh_head a (b ∷ xs) d) in
        rw (← e) (grind (arith, other))
    | no o ↦
        let ih =
          after-remove x r (some a) (b ∷ xs) (grind (arith, d)) (grind (arith, h))
            (grind (arith, k)) n (grind arith) in
        grind (arith, ih)
  ]
]

pub before-remove :
    (x r : ℕ) (p : Option ℕ) (xs : List ℕ)
    → distinct xs ≡ true
    → among r xs ≡ true
    → among x xs ≡ true
    → r ≢ x
    → before p (remove r xs) x ≡ (if names (after xs r) x then before p xs r else before p xs x)
unfolding remove after before names among distinct first
before-remove x r p [] d h k n = absurd (cc h)
before-remove x r p (a ∷ []) d h k n = absurd (n (grind (arith, h, k)))
before-remove x r p (a ∷ b ∷ xs) d h k n = elim (ℕ_discrete a r) [
  | yes e ↦ grind arith
  | no m ↦ elim (ℕ_discrete a x) [
    | yes e ↦
        let other = unnamed_after a r (b ∷ xs) (fresh_head a (b ∷ xs) d) in
        rw (← e) (grind (arith, other))
    | no o ↦
        let ih =
          before-remove x r (some a) (b ∷ xs) (grind (arith, d)) (grind (arith, h))
            (grind (arith, k)) n in
        grind (arith, ih)
  ]
]

pub last-none-among : (x : ℕ) (xs : List ℕ) → names (last none xs) x ≡ true → among x xs ≡ true
unfolding last names among
last-none-among x [] h = absurd (cc h)
last-none-among x (a ∷ xs) h = last-among a x xs h

pub after-append_new : (r : ℕ) (xs : List ℕ) → among r xs ≡ false → after (xs ++ (r ∷ [])) r ≡ none
unfolding after among first
after-append_new r [] h = grind arith
after-append_new r (a ∷ xs) h = grind (arith, h, after-append_new r xs)

-- What Detach makes of the head and of the tail.
before_some :
    (a r : ℕ) (xs : List ℕ) (u v : Option ℕ)
    → among r xs ≡ true
    → or_keep (before (some a) xs r) u v ≡ v
unfolding before among
before_some a r [] u v h = absurd (cc h)
before_some a r (b ∷ xs) u v h = elim (ℕ_discrete b r) [
  | yes e ↦ rw e (grind arith)
  | no n ↦
      let ih = before_some b r xs u v (grind (arith, h)) in
      let skip : before (some a) (b ∷ xs) r ≡ before (some b) xs r = grind arith in rw skip ih
]

pub head-remove :
    (r : ℕ) (xs : List ℕ)
    → among r xs ≡ true
    → or_keep (before none xs r) (after xs r) (first xs) ≡ first (remove r xs)
unfolding remove first after before among
head-remove r [] h = absurd (cc h)
head-remove r (a ∷ xs) h = elim (ℕ_discrete a r) [
  | yes e ↦ let here : before none (a ∷ xs) r ≡ none = grind arith in rw here (grind arith)
  | no n ↦
      let there : before none (a ∷ xs) r ≡ before (some a) xs r = grind arith in
      rw there (before_some a r xs _ _ (grind (arith, h)) ∙ grind arith)
]

pub tail-remove :
    (r : ℕ) (p : Option ℕ) (xs : List ℕ)
    → distinct xs ≡ true
    → among r xs ≡ true
    → or_keep (after xs r) (before p xs r) (last p xs) ≡ last p (remove r xs)
unfolding remove last before after among distinct first
tail-remove r p [] d h = absurd (cc h)
tail-remove r p (a ∷ []) d h =
    let alone : after (a ∷ []) r ≡ none = grind arith in rw alone (grind (arith, h))
tail-remove r p (a ∷ b ∷ xs) d h = elim (ℕ_discrete a r) [
  | yes e ↦ let here : after (a ∷ b ∷ xs) r ≡ some b = grind arith in rw here (grind arith)
  | no n ↦
      let ih = tail-remove r (some a) (b ∷ xs) (grind (arith, d)) (grind (arith, h)) in
      let behind : after (a ∷ b ∷ xs) r ≡ after (b ∷ xs) r = grind arith in
      let ahead : before p (a ∷ b ∷ xs) r ≡ before (some a) (b ∷ xs) r = grind arith in
      let left : remove r (a ∷ b ∷ xs) ≡ a ∷ remove r (b ∷ xs) = grind arith in
      rw (behind, ahead, left) ih
]

pub length-remove : (r : ℕ) (xs : List ℕ) → length (remove r xs) ≤ length xs
unfolding remove
length-remove r [] = omega arith
length-remove r (a ∷ xs) =
    if_ind (λ (ys : List ℕ). length ys ≤ length (a ∷ xs)) (a == r) (λ e. omega arith)
      (λ e. omega (arith, length-remove r xs))

pub or_else-append : (r : ℕ) (xs : List ℕ) → or_else (first xs) (some r) ≡ first (xs ++ (r ∷ []))
unfolding first
or_else-append r [] = refl
or_else-append r (a ∷ xs) = refl

pub remove-absent : (r : ℕ) (xs : List ℕ) → among r xs ≡ false → remove r xs ≡ xs
unfolding remove among
remove-absent r [] h = refl
remove-absent r (a ∷ xs) h =
    let ih = remove-absent r xs (grind (arith, h)) in rw ih (grind (arith, h))

pub distinct_tail : (a : ℕ) (xs : List ℕ) → distinct (a ∷ xs) ≡ true → distinct xs ≡ true
unfolding distinct
distinct_tail a xs d = grind (arith, d)

-- The head of a list, and the rest behind it.
pub behind_head :
    (a : ℕ) (xs : List ℕ)
    → distinct (a ∷ xs) ≡ true
    → ((among a (a ∷ xs) ≡ true) × (after (a ∷ xs) a ≡ first xs))
      × ((y : ℕ) → among y xs ≡ true → (among y (a ∷ xs) ≡ true) × (after (a ∷ xs) y ≡ after xs y))
unfolding among after
behind_head a xs d =
    let new = fresh_head a xs d in
    (
      (grind arith, grind arith),
      λ y e. elim (ℕ_discrete a y) [
        | yes i ↦ absurd (cc (ap (λ z. among z xs) i, new, e))
        | no n ↦ (grind (arith, e), grind arith)
      ],
    )
