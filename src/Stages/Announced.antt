-- ===== src/Stages/Announced.antt =====
-- What a stage of `Prove` may rely on when it makes a call, and when it closes a channel.
use gnark_cuda.Prelude.{
  ℕ, ◌≡◌, ◌∙◌, ◌⊎◌, inl, inr, refl, sym, ap, arith, Bool, true, false, List, [], ◌∷◌, ◌&&◌, ◌||◌,
  ◌==◌, ==→≡,
}
use gnark_cuda.Stages.{
  Chan, ch_bp, ch_lro, ch_qk, ch_gamma_beta, ch_z, ch_start_restore, ch_restore_lro, ch_h,
  ch_z_opening, ch_linearized_polynomial, Call, commit_to_lro, set_commitment_values, derive_gamma,
  build_ratio_copy_constraint, commit_to_z, set_commitments, derive_alpha, rho_loop, restore,
  blind_z, open_shifted, evaluate_at_zeta, inner_compute_linearized_poly, build_openings,
  batch_open_single_point, Instr, wait, close, act, run, fail, order, on_error,
}

-- The channels that come before c.
abbrev pub before : Chan → List Chan
before ch_bp = []
before ch_lro = ch_bp ∷ []
before ch_qk = ch_bp ∷ ch_lro ∷ []
before ch_gamma_beta = ch_bp ∷ ch_lro ∷ []
before ch_z = ch_bp ∷ ch_lro ∷ ch_gamma_beta ∷ []
before ch_start_restore = ch_bp ∷ ch_lro ∷ ch_qk ∷ ch_gamma_beta ∷ ch_z ∷ []
before ch_restore_lro = ch_bp ∷ ch_lro ∷ ch_qk ∷ ch_gamma_beta ∷ ch_z ∷ ch_start_restore ∷ []
before ch_h = ch_bp ∷ ch_lro ∷ ch_qk ∷ ch_gamma_beta ∷ ch_z ∷ ch_start_restore ∷ ch_restore_lro ∷ []
before ch_z_opening =
    ch_bp ∷ ch_lro ∷ ch_qk ∷ ch_gamma_beta ∷ ch_z ∷ ch_start_restore ∷ ch_restore_lro ∷ ch_h ∷ []
before ch_linearized_polynomial =
    ch_bp ∷ ch_lro ∷ ch_qk ∷ ch_gamma_beta ∷ ch_z ∷ ch_start_restore ∷ ch_restore_lro ∷ ch_h
    ∷ ch_z_opening ∷ []

-- The channels that announce what a call reads of other goroutines: ch_bp the blinding polynomials,
-- ch_lro L, R, O, their commitments and those of the circuit, ch_qk the whole Qk, ch_gamma_beta the
-- challenges γ and β, ch_z Z and its commitment, ch_restore_lro the polynomials in canonical form,
-- ch_h the challenges α and ζ with the quotient, ch_z_opening the opening of Z at μζ and the blinded
-- Z, ch_linearized_polynomial the linearized polynomial, its commitment and the values at ζ.
abbrev pub reads : Call → List Chan
reads commit_to_lro = ch_bp ∷ []
reads set_commitment_values = ch_lro ∷ []
reads derive_gamma = ch_lro ∷ []
reads build_ratio_copy_constraint = ch_lro ∷ ch_gamma_beta ∷ []
reads commit_to_z = ch_bp ∷ []
reads set_commitments = ch_lro ∷ []
reads derive_alpha = ch_lro ∷ ch_gamma_beta ∷ ch_z ∷ []
reads rho_loop = ch_bp ∷ ch_lro ∷ ch_qk ∷ ch_gamma_beta ∷ ch_z ∷ []
reads restore = ch_bp ∷ ch_lro ∷ ch_qk ∷ ch_z ∷ ch_start_restore ∷ []
reads blind_z = ch_bp ∷ ch_z ∷ ch_restore_lro ∷ []
reads open_shifted = ch_h ∷ []
reads evaluate_at_zeta = ch_bp ∷ ch_lro ∷ ch_restore_lro ∷ ch_h ∷ []
reads inner_compute_linearized_poly = ch_lro ∷ ch_gamma_beta ∷ ch_h ∷ ch_z_opening ∷ []
reads build_openings = ch_bp ∷ ch_lro ∷ ch_restore_lro ∷ ch_linearized_polynomial ∷ []
reads batch_open_single_point = ch_h ∷ ch_z_opening ∷ ch_linearized_polynomial ∷ []
reads _ = []

abbrev pub AllClosed : (ℕ → Bool) → List Chan → Type 0
AllClosed closed [] = Unit
AllClosed closed (c ∷ cs) = (closed (order c) ≡ true) × AllClosed closed cs

unfoldable pub is_in : ℕ → List Chan → Bool
is_in n [] = false
is_in n (c ∷ cs) = (order c == n) || is_in n cs

unfoldable pub all_known : (ℕ → Bool) → List Chan → Bool
all_known known [] = true
all_known known (c ∷ cs) = known (order c) && all_known known cs

-- What is known to be closed once c is.
unfoldable pub learn : (ℕ → Bool) → Chan → ℕ → Bool
learn known c n = known n || ((order c == n) || is_in n (before c))

-- A program that closes its channels only when those before them are known to be closed.
unfoldable pub closes_in_order : (ℕ → Bool) → List Instr → Bool
closes_in_order known [] = true
closes_in_order known (close c ∷ l) = all_known known (before c) && closes_in_order known l
closes_in_order known (_ ∷ l) = closes_in_order known l

-- A program in which the waits so far make known what each call reads and each close asks for.
unfoldable pub check : (ℕ → Bool) → List Instr → Bool
check known [] = true
check known (wait c ∷ l) = check (learn known c) l
check known (close c ∷ l) = all_known known (before c) && check known l
check known (act o ∷ l) = all_known known (reads o) && check known l
check known (run o ∷ l) =
    all_known known (reads o) && (closes_in_order known (on_error o) && check known l)
check known (fail ∷ l) = check known l

pub and-left : (a b : Bool) → a && b ≡ true → a ≡ true
and-left a b h = ground arith

pub and-right : (a b : Bool) → a && b ≡ true → b ≡ true
and-right a b h = ground arith

or-cases : (a b : Bool) → a || b ≡ true → (a ≡ true) ⊎ (b ≡ true)
or-cases true b h = inl refl
or-cases false b h = inr h

pub on_error-check :
    (known : ℕ → Bool) (o : Call)
    → closes_in_order known (on_error o) ≡ true
    → check known (on_error o) ≡ true
unfolding closes_in_order check on_error
on_error-check known commit_to_z h = h
on_error-check known _ h = refl

abbrev pub IsSound : (known closed : ℕ → Bool) → Type 0
IsSound known closed = (n : ℕ) → known n ≡ true → closed n ≡ true

pub all_known-AllClosed :
    (known closed : ℕ → Bool) (cs : List Chan)
    → IsSound known closed
    → all_known known cs ≡ true
    → AllClosed closed cs
unfolding all_known
all_known-AllClosed known closed [] sound h = tt
all_known-AllClosed known closed (c ∷ cs) sound h = (
  sound (order c) (and-left _ _ h),
  all_known-AllClosed known closed cs sound (and-right (known (order c)) _ h),
)

AllClosed-is_in :
    (closed : ℕ → Bool) (cs : List Chan) (n : ℕ)
    → AllClosed closed cs
    → is_in n cs ≡ true
    → closed n ≡ true
unfolding is_in
AllClosed-is_in closed [] n a h = cc
AllClosed-is_in closed (c ∷ cs) n a h = elim (or-cases (order c == n) (is_in n cs) h) [
  | inl e ↦ ap closed (sym (==→≡ (order c) n e)) ∙ a.0
  | inr h' ↦ AllClosed-is_in closed cs n a.1 h'
]

pub learn-IsSound :
    (known closed : ℕ → Bool) (c : Chan)
    → IsSound known closed
    → closed (order c) ≡ true
    → AllClosed closed (before c)
    → IsSound (learn known c) closed
unfolding learn
learn-IsSound known closed c sound here all n h =
    elim (or-cases (known n) ((order c == n) || is_in n (before c)) h) [
      | inl h' ↦ sound n h'
      | inr h' ↦ elim (or-cases (order c == n) (is_in n (before c)) h') [
        | inl e ↦ ap closed (sym (==→≡ (order c) n e)) ∙ here
        | inr i ↦ AllClosed-is_in closed (before c) n all i
      ]
    ]
