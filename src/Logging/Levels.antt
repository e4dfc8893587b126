-- ===== src/Logging/Levels.antt =====
-- The level that each logger has after configure_safe_logging of gateway/logging_utils.py.
use privacy_gateway_llm_appl.Prelude.{
  ℕ, max, Text, List, [], ◌∷◌, Bool, true, false, ◌≡◌, refl, ap, ◌∙◌, subst, nat_eq, text_eq, ◌==◌,
  ◌||◌, ==_iff, ==_self, arith,
}
use privacy_gateway_llm_appl.Logging.{
  info, content_leaking_loggers, Levels, set_level, pin, pin_all, configure_safe_logging,
}

-- Whether a name is in a list.
abbrev pub is_listed : Text → List Text → Bool
is_listed wanted [] = false
is_listed wanted (name ∷ names) = name == wanted || is_listed wanted names

-- The level meant for a logger: at least INFO if it is listed, and its own level otherwise.
abbrev pub wanted_level : Bool → ℕ → ℕ
wanted_level true level = max info level
wanted_level false level = level

pin_self : (name : Text) (levels : Levels) → pin name levels name ≡ max info (levels name)
unfolding pin set_level
pin_self name levels = rw (==_self name) (ground arith)

pin_lem :
    (name other : Text) (levels : Levels) (b : Bool)
    → (name == other) ≡ b
    → pin name levels other ≡ wanted_level b (levels other)
unfolding pin set_level
pin_lem name other levels true e =
    subst (λ o. pin name levels o ≡ max info (levels o)) ((==_iff name other).0 e)
      (pin_self name levels)
pin_lem name other levels false e = rw e (ground arith)

wanted_level_twice :
    (b c : Bool) (n : ℕ) → wanted_level b (wanted_level c n) ≡ wanted_level (c || b) n
wanted_level_twice b c n = ground arith

pin_all_lem :
    (names : List Text) (other : Text) (levels : Levels)
    → pin_all names levels other ≡ wanted_level (is_listed other names) (levels other)
unfolding pin_all
pin_all_lem [] other levels = refl
pin_all_lem (name ∷ names) other levels =
    pin_all_lem names other (pin name levels)
    ∙ ap (wanted_level (is_listed other names)) (pin_lem name other levels _ refl)
    ∙ wanted_level_twice (is_listed other names) (name == other) (levels other)

-- After configure_safe_logging a listed logger has the greater of INFO and the level that it had, and
-- every other logger the level that it had.
pub configure_safe_logging_lem :
    (levels : Levels) (name : Text)
    → configure_safe_logging levels name
      ≡ wanted_level (is_listed name content_leaking_loggers) (levels name)
unfolding configure_safe_logging
configure_safe_logging_lem levels name = pin_all_lem content_leaking_loggers name levels
