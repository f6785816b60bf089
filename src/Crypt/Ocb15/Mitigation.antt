-- ===== src/Crypt/Ocb15/Mitigation.antt =====
-- Which plaintexts the XEX mitigation of ocb15Encrypt (gumble/gumble/udp15.go) changes, and how.
use barnard_stormdragon_ai_f.Prelude.{
  ℕ, zero, suc, ◌≤◌, ◌≡◌, ◌⊎◌, inl, inr, refl, ap, ◌∙◌, sym, arith, List, [], ◌∷◌, ◌++◌, true,
  length, take, drop, take-append-drop, length-take, length-drop, append_assoc, Bool-cases, leb,
  leb→le, &&-true,
}
use barnard_stormdragon_ai_f.Crypt.Ocb15.{flips, flip_first, all_zero}
use barnard_stormdragon_ai_f.Crypt.Ocb15.Pad.{mitigated, mitigated_done, mitigated_more}
use mathlib.Core.Path.{subst}
use native.Mathlib.Decide.{dec_lt}

-- A text whose last full block starts with 15 zeros, and the same text with the bit flipped.
pub record Flipped (text text' : List ℕ) : Type 0 where
  pub front : List ℕ
  pub block : List ℕ
  pub rest : List ℕ
  pub before : text ≡ front ++ (block ++ rest)
  pub after : text' ≡ front ++ (flip_first block ++ rest)
  pub full : length block ≡ 16
  pub zeros : all_zero (take 15 block) ≡ true
  pub partial : (1 ≤ length rest) × (length rest ≤ 16)

take-take : (rest : List ℕ) → take 15 (take 16 rest) ≡ take 15 rest
take-take rest = take_within 15 rest
  where
    take_within : (n : ℕ) (xs : List ℕ) → take n (take (suc n) xs) ≡ take n xs
    take_within zero xs = refl
    take_within (suc n) [] = refl
    take_within (suc n) (x ∷ xs) = ap (λ l. x ∷ l) (take_within n xs)

Flipped-front : (b : List ℕ) {t t' : List ℕ} → Flipped t t' → Flipped (b ++ t) (b ++ t')
Flipped-front b f = record {
  front = b ++ f.front;
  block = f.block;
  rest = f.rest;
  before = ap (λ l. b ++ l) f.before ∙ sym (append_assoc b f.front (f.block ++ f.rest));
  after = ap (λ l. b ++ l) f.after ∙ sym (append_assoc b f.front (flip_first f.block ++ f.rest));
  full = f.full;
  zeros = f.zeros;
  partial = f.partial;
}

-- The mitigation leaves a plaintext alone, or flips the lowest bit of the first byte of its last full
-- block, which then starts with 15 zeros and stands before one to sixteen more bytes.
mitigated_cases :
    (n : ℕ) (text : List ℕ)
    → length text ≤ n
    → (mitigated n text ≡ text) ⊎ Flipped text (mitigated n text)
mitigated_cases zero text h = inl (mitigated_done zero text (omega arith))
mitigated_cases (suc n) text h = elim (dec_lt 16 (length text)) [
  | no le ↦ inl (mitigated_done (suc n) text (omega arith))
  | yes lt ↦ elim (Bool-cases (flips text)) [
    | inr stays ↦
        rw (mitigated_more n text lt, stays)
          (onward (mitigated_cases n (drop 16 text) (omega (arith, length-drop 16 text))))
    | inl flip ↦
        let (short, zeros) = &&-true (leb (length text) 32) _ flip in
        let le = leb→le (length text) 32 short in
        inr (
          rw
            (
              mitigated_more n text lt,
              flip,
              mitigated_done n (drop 16 text) (omega (arith, length-drop 16 text)),
            )
            (record {
              front = [];
              block = take 16 text;
              rest = drop 16 text;
              before = sym (take-append-drop 16 text);
              after = refl;
              full = omega (arith, length-take 16 text);
              zeros = rw (take-take text) zeros;
              partial = omega (arith, length-drop 16 text);
            }))
  ]
]
  where
    onward :
        (mitigated n (drop 16 text) ≡ drop 16 text)
          ⊎ Flipped (drop 16 text) (mitigated n (drop 16 text))
        → (take 16 text ++ mitigated n (drop 16 text) ≡ text)
          ⊎ Flipped text (take 16 text ++ mitigated n (drop 16 text))
    onward (inl e) = inl (rw e (take-append-drop 16 text))
    onward (inr f) = inr (
        subst (λ t. Flipped t (take 16 text ++ mitigated n (drop 16 text)))
          (take-append-drop 16 text) (Flipped-front (take 16 text) f))
