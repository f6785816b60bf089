-- ===== src/Listeners/Order.antt =====
-- Neighbours in a list without repetition, for the linked list of gumble/gumble/listeners.go.
use barnard_stormdragon_ai_f.Prelude.{
  ℕ, ◌≡◌, refl, sym, List, [], ◌∷◌, ◌++◌, Option, none, some, Bool, true, false, if◌then◌else◌,
  ◌==◌, Bool-cases, inl, inr, arith,
}
use native.Mathlib.Decide.{ℕ_discrete}

unfoldable pub among : ℕ → List ℕ → Bool
among x [] = false
among x (a ∷ xs) = if a == x then true else among x xs

unfoldable pub distinct : List ℕ → Bool
distinct [] = true
distinct (a ∷ xs) = if among a xs then false else distinct xs

unfoldable pub first : List ℕ → Option ℕ
first [] = none
first (a ∷ xs) = some a

unfoldable pub last : Option ℕ → List ℕ → Option ℕ
last p [] = p
last p (a ∷ xs) = last (some a) xs

unfoldable pub after : List ℕ → ℕ → Option ℕ
after [] x = none
after (a ∷ xs) x = if a == x then first xs else after xs x

unfoldable pub before : Option ℕ → List ℕ → ℕ → Option ℕ
before p [] x = none
before p (a ∷ xs) x = if a == x then p else before (some a) xs x

unfoldable pub remove : ℕ → List ℕ → List ℕ
remove r [] = []
remove r (a ∷ xs) = if a == r then xs else a ∷ remove r xs

unfoldable pub names : Option ℕ → ℕ → Bool
names none x = false
names (some a) x = a == x

-- Appending.
pub among-append :
    (x r : ℕ) (xs : List ℕ) → among x (xs ++ (r ∷ [])) ≡ (if among x xs then true else r == x)
unfolding among
among-append x r [] = grind arith
among-append x r (a ∷ xs) = grind (arith, among-append x r xs)

pub distinct-append :
    (r : ℕ) (xs : List ℕ)
    → among r xs ≡ false
    → distinct xs ≡ true
    → distinct (xs ++ (r ∷ [])) ≡ true
unfolding distinct among
distinct-append r [] h d = refl
distinct-append r (a ∷ xs) h d = grind (arith, among-append a r xs, distinct-append r xs)

pub last-append : (p : Option ℕ) (r : ℕ) (xs : List ℕ) → last p (xs ++ (r ∷ [])) ≡ some r
unfolding last
last-append p r [] = refl
last-append p r (a ∷ xs) = last-append (some a) r xs

pub last-among :
    (a x : ℕ) (xs : List ℕ)
    → names (last (some a) xs) x ≡ true
    → (if a == x then true else among x xs) ≡ true
unfolding last names among
last-among a x [] h = grind arith
last-among a x (b ∷ xs) h = grind (arith, last-among b x xs h)

pub fresh_head : (a : ℕ) (xs : List ℕ) → distinct (a ∷ xs) ≡ true → among a xs ≡ false
unfolding distinct
fresh_head a xs d = grind (arith, d)

pub unnamed :
    (a b : ℕ) (xs : List ℕ) → among a (b ∷ xs) ≡ false → names (last (some b) xs) a ≡ false
unfolding among
unnamed a b xs h = elim (Bool-cases (names (last (some b) xs) a)) [
  | inl e ↦ absurd (cc (sym (last-among b a xs e), h))
  | inr e ↦ e
]

pub after-append :
    (x r : ℕ) (p : Option ℕ) (xs : List ℕ)
    → distinct xs ≡ true
    → among x xs ≡ true
    → after (xs ++ (r ∷ [])) x ≡ (if names (last p xs) x then some r else after xs x)
unfolding after last among distinct first names
after-append x r p [] d h = absurd (cc h)
after-append x r p (a ∷ []) d h = grind (arith, h)
after-append x r p (a ∷ b ∷ xs) d h =
    let rest : distinct (b ∷ xs) ≡ true = grind (arith, d) in
    elim (ℕ_discrete a x) [
      | yes e ↦
          let other : names (last (some b) xs) x ≡ false =
            rw (← e) (unnamed a b xs (fresh_head a (b ∷ xs) d)) in
          rw other (grind arith)
      | no n ↦
          let ih = after-append x r (some a) (b ∷ xs) rest (grind (arith, h)) in grind (arith, ih)
    ]

pub before-append :
    (x r : ℕ) (p : Option ℕ) (xs : List ℕ)
    → among r xs ≡ false
    → before p (xs ++ (r ∷ [])) x
      ≡ (if among x xs then before p xs x else if r == x then last p xs else none)
unfolding before last among
before-append x r p [] h = grind arith
before-append x r p (a ∷ xs) h = grind (arith, before-append x r (some a) xs)
