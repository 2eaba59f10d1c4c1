-- ===== src/Backend/Ui/Setup/Validation.antt =====
-- hammer/hammeregg_backend/src/ui/setup.rs: the validation of the form.
use hammeregg.Prelude.{
  ℕ, String, ◌≡◌, ◌≢◌, ◌↔◌, refl, [], ◌∷◌, ◌++◌, List, none, some, Option-cases, inl, inr, arith,
  All, true, false,
}
use hammeregg.Prelude.Text.{chars, is_empty}
use hammeregg.Prelude.Net.{SocketAddr}
use hammeregg.Backend.Ui.Screen.{SetupScreen}
use hammeregg.Backend.Ui.Setup.{
  try_parse_signalling_server_addr, validate_input, contains_nul, check_desktop_name,
  check_server_addr, error_text,
}

-- A name that `CString::new` takes, and that is there.
abbrev pub IsName : List ℕ → Type 0
IsName name = (name ≢ []) × All (λ c. c ≢ 0) name

abbrev pub IsFilled : SetupScreen → Type 0
IsFilled screen =
    IsName (chars screen.desktop_name)
    × ((addr : SocketAddr) × (try_parse_signalling_server_addr screen ≡ some addr))

contains_nul_iff : (cs : List ℕ) → (contains_nul cs ≡ false) ↔ All (λ c. c ≢ 0) cs
contains_nul_iff [] = (λ e. tt, λ h. refl)
contains_nul_iff (c ∷ cs) =
    let (to, from) = contains_nul_iff cs in
    (λ e. (λ z. ground (arith, z), to (ground arith)), λ (h, hs). ground (arith, from hs, h))

is_empty_iff : (cs : List ℕ) → (is_empty cs ≡ false) ↔ (cs ≢ [])
is_empty_iff [] = (λ e. cc, λ h. absurd (h refl))
is_empty_iff (c ∷ cs) = (λ e z. cc, λ h. refl)

check_desktop_name_iff :
    (name : String)
    → (((check_desktop_name name).0 ≡ true) ↔ IsName (chars name))
      × (((check_desktop_name name).0 ≡ true) ↔ ((check_desktop_name name).1 ≡ []))
unfolding check_desktop_name
check_desktop_name_iff name =
    let (nul_to, nul_from) = contains_nul_iff (chars name) in
    let (empty_to, empty_from) = is_empty_iff (chars name) in
    (
      (
        λ e. (empty_to (ground arith), nul_to (ground arith)),
        λ (h, hs). ground (arith, nul_from hs, empty_from h),
      ),
      (λ e. ground arith, λ e. ground arith),
    )

check_server_addr_iff :
    (screen : SetupScreen)
    → (((check_server_addr screen).0 ≡ true)
        ↔ ((addr : SocketAddr) × (try_parse_signalling_server_addr screen ≡ some addr)))
      × (((check_server_addr screen).0 ≡ true) ↔ ((check_server_addr screen).1 ≡ []))
unfolding check_server_addr
check_server_addr_iff screen = elim (Option-cases (try_parse_signalling_server_addr screen)) [
  | inl e ↦ rw (check_server_addr, e) ((λ f. cc, λ (addr, f). cc), (λ f. cc, λ f. cc))
  | inr (addr, e) ↦
      rw (check_server_addr, e) ((λ f. (addr, refl), λ f. refl), (λ f. refl, λ f. refl))
]

error_text_iff : (errors : List String) → (error_text errors ≡ none) ↔ (errors ≡ [])
unfolding error_text
error_text_iff [] = (λ e. refl, λ e. refl)
error_text_iff (e ∷ []) = (λ h. cc, λ h. cc)
error_text_iff (e ∷ e' ∷ errors) = (λ h. cc, λ h. cc)

append-nil_iff : (xs ys : List String) → (xs ++ ys ≡ []) ↔ ((xs ≡ []) × (ys ≡ []))
append-nil_iff [] ys = (λ h. (refl, h), λ (e, h). h)
append-nil_iff (x ∷ xs) ys = (λ h. cc, λ (e, h). cc)

-- The form is valid exactly when its name is not empty and holds no NUL and its address parses,
-- and exactly then the validation leaves no error to show.
pub validate_input_iff :
    (screen : SetupScreen)
    → (((validate_input screen).0 ≡ true) ↔ IsFilled screen)
      × (((validate_input screen).0 ≡ true) ↔ ((validate_input screen).1.error_msg ≡ none))
unfolding validate_input
validate_input_iff screen =
    let (name_iff, name_errors_iff) = check_desktop_name_iff screen.desktop_name in
    let (addr_iff, addr_errors_iff) = check_server_addr_iff screen in
    let name = check_desktop_name screen.desktop_name in
    let addr = check_server_addr screen in
    let text = error_text_iff (name.1 ++ addr.1) in
    let errors = append-nil_iff name.1 addr.1 in
    (
      (
        λ h. (name_iff.0 (ground arith), addr_iff.0 (ground arith)),
        λ (h, k). ground (arith, name_iff.1 h, addr_iff.1 k),
      ),
      (
        λ h. text.1 (errors.1 (name_errors_iff.0 (ground arith), addr_errors_iff.0 (ground arith))),
        λ h.
            let (e, e') = errors.0 (text.0 h) in
            ground (arith, name_errors_iff.1 e, addr_errors_iff.1 e'),
      ),
    )
