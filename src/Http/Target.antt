-- ===== src/Http/Target.antt =====
-- src/http_session_impl.hpp, `prepare_target`.
use occase.Base.{
  ℕ, zero, suc, ◌-◌, ◌≤◌, ◌≡◌, ◌≢◌, refl, ap, ◌∙◌, [], ◌∷◌, ◌++◌, Str, arith, true, false, ◌==◌,
  length, take, length-append, take-length-append,
}
use occase.Http.{prepare_target, last_code}

take_all : (n : ℕ) (s : Str) → length s ≤ n → take n s ≡ s
take_all zero [] h = refl
take_all zero (x ∷ s) h = ground arith
take_all (suc n) [] h = refl
take_all (suc n) (x ∷ s) h = ap (◌∷◌ x) (take_all n s (omega (arith, h)))

last_code-append : (s : Str) (c : ℕ) → last_code (s ++ c ∷ []) ≡ c
unfolding last_code
last_code-append [] c = refl
last_code-append (x ∷ []) c = refl
last_code-append (x ∷ y ∷ s) c = last_code-append (y ∷ s) c

last_code-cons : (c d : ℕ) (t : Str) → last_code (c ∷ d ∷ t) ≡ last_code (d ∷ t)
unfolding last_code
last_code-cons c d t = refl

last_both : (c d : ℕ) (t : Str) → last_code (c ∷ d ∷ t ++ c ∷ []) ≡ c
last_both c d t = last_code-cons c d (t ++ c ∷ []) ∙ last_code-append (d ∷ t) c

drop_last : (s : Str) (c : ℕ) → take (length (s ++ c ∷ []) - 1) (s ++ c ∷ []) ≡ s
drop_last s c =
    let n : length (s ++ c ∷ []) - 1 ≡ length s = omega (arith, length-append s (c ∷ [])) in
    rw n (take-length-append s (c ∷ []))

same : (c : ℕ) → (c == c) ≡ true
same c = ground arith

differ : (a b : ℕ) → a ≢ b → (a == b) ≡ false
differ a b h = ground arith

-- For a target that neither begins nor ends with the separator: it is kept as it is, a separator
-- before it or after it is removed, and of separators on both sides only the first one is.
pub prepare_target_separators :
    (d c : ℕ) (t : Str)
    → d ≢ c
    → last_code (d ∷ t) ≢ c
    → (prepare_target (d ∷ t) c ≡ d ∷ t)
      × (prepare_target (c ∷ d ∷ t) c ≡ d ∷ t)
      × (prepare_target (d ∷ t ++ c ∷ []) c ≡ d ∷ t)
      × (prepare_target (c ∷ d ∷ t ++ c ∷ []) c ≡ d ∷ t ++ c ∷ [])
unfolding prepare_target
prepare_target_separators d c t h k = (
  rw (differ d c h) (rw (differ (last_code (d ∷ t)) c k) refl),
  rw (same c) (
      rw (last_code-cons c d t) (
        rw (differ (last_code (d ∷ t)) c k) (take_all (length (c ∷ d ∷ t)) (d ∷ t) (omega arith)))),
  rw (differ d c h) (rw (last_code-append (d ∷ t) c) (rw (same c) (drop_last (d ∷ t) c))),
  rw (same c) (
      rw (last_both c d t) (
        rw (same c) (take_all (length (c ∷ d ∷ t ++ c ∷ []) - 1) (d ∷ t ++ c ∷ []) (omega arith)))),
)
