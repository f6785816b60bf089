-- ===== src/Recorder/Samples.antt =====
-- The samples of recording/recorder.go: mix stays within an int16, appendCapped keeps the newest.
use barnard_stormdragon_ai_f.Prelude.{
  suc, ◌-◌, ◌≤◌, ◌≡◌, refl, List, [], ◌∷◌, ◌++◌, length, length-drop, take, take-append-drop, All,
  arith, ltb, if_ind, ltb-false→le, ltb→lt, ap,
}
use barnard_stormdragon_ai_f.Prelude.Int.{ℤ, pos, negsuc, ◌≤ℤ◌}
use barnard_stormdragon_ai_f.Recorder.{mix, saturate, append_capped}

abbrev pub IsInt16 : ℤ → Type 0
IsInt16 v = (negsuc 32767 ≤ℤ v) × (v ≤ℤ pos 32767)

saturate-IsInt16 : (v : ℤ) → IsInt16 (saturate v)
unfolding saturate
saturate-IsInt16 (pos n) = ground arith
saturate-IsInt16 (negsuc n) = ground arith

-- `mix` leaves as many samples as it found, and they are int16 again.
pub mix-IsInt16 :
    (dst src : List ℤ)
    → All IsInt16 dst
    → All IsInt16 (mix dst src) × (length (mix dst src) ≡ length dst)
unfolding mix
mix-IsInt16 [] src h = (tt, refl)
mix-IsInt16 (x ∷ dst) [] h = (h, refl)
mix-IsInt16 (x ∷ dst) (y ∷ src) h =
    let (a, b) = mix-IsInt16 dst src h.1 in ((saturate-IsInt16 _, a), ap suc b)

-- The newest samples of `all`, at most 480000 of them.
pub record IsNewest (all kept : List ℤ) : Type 0 where
  pub lost : List ℤ
  pub suffix : lost ++ kept ≡ all
  pub size : length kept ≤ 480000
  pub full : 1 ≤ length lost → length kept ≡ 480000

-- `appendCapped` keeps at most 480000 samples, which end what was queued and what came in, and drops
-- samples only when it keeps that many.
pub append_capped-IsNewest :
    (queue incoming : List ℤ) → IsNewest (queue ++ incoming) (append_capped queue incoming)
unfolding append_capped
append_capped-IsNewest queue incoming =
    let all = queue ++ incoming in
    let n = length all - 480000 in
    if_ind (IsNewest all) (ltb 480000 (length all))
      (λ e. record {
        lost = take n all;
        suffix = take-append-drop n all;
        size = omega (arith, length-drop n all);
        full = λ _. omega (arith, length-drop n all, ltb→lt 480000 (length all) e);
      })
      (λ e. record {
        lost = [];
        suffix = refl;
        size = omega (arith, ltb-false→le 480000 (length all) e);
        full = λ h. absurd (omega arith);
      })
