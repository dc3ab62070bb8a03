-- ===== src/Admin/Access.antt =====
-- src/admin.rs: who may read the status.
use entrouter_line.Base.{
  ◌≡◌, refl, sym, ap, ◌∙◌, inl, inr, ◌↔◌, true, false, ◌++◌, Option, none, some, Bytes, bytes_eq,
  bytes_eq_iff, take, drop, take-append-drop, Bool-cases,
}
use mathlib.Core.Bool.{false≢true}
use entrouter_line.Admin.{
  AdminState, ok_text, unauthorized, status, bearer, starts_with, authorized, health_route,
  status_route, handle_request,
}

-- The header carries the token that is asked for, if one is.
abbrev pub Presents : Option Bytes → Option Bytes → Type 0
Presents none auth_header = Unit {0}
Presents (some token) auth_header = auth_header ≡ some (bearer ++ token)

authorized-Presents :
    (token auth_header : Option Bytes)
    → (authorized token auth_header ≡ true) ↔ Presents token auth_header
unfolding authorized
authorized-Presents none auth_header = (λ e. tt, λ p. refl)
authorized-Presents (some token) none = (λ e. absurd (cc), λ p. absurd (cc))
authorized-Presents (some token) (some value) = (
  λ e. elim (Bool-cases (starts_with bearer value)) [
    | inl good ↦
        let front : take 7 value ≡ bearer = (bytes_eq_iff (take 7 value) bearer).0 good in
        let run : authorized (some token) (some value) ≡ bytes_eq (drop 7 value) token =
          rw good refl in
        let back : drop 7 value ≡ token = (bytes_eq_iff (drop 7 value) token).0 (sym run ∙ e) in
        ap some (
          sym (take-append-drop 7 value)
          ∙ ap (λ t. t ++ drop 7 value) front
          ∙ ap (λ t. bearer ++ t) back)
    | inr bad ↦
        let run : authorized (some token) (some value) ≡ false = rw bad refl in
        absurd (false≢true (sym run ∙ e))
  ],
  λ p. ap (λ h. authorized (some token) h) p ∙ (bytes_eq_iff token token).1 refl,
)

-- The status is returned exactly to a request with the configured token behind "Bearer ", or to any
-- if no token is configured; every other such request is unauthorized. The health check answers
-- always.
pub handle_request-Presents :
    (s : AdminState) (auth_header : Option Bytes)
    → (Presents s.admin_token auth_header → handle_request s status_route auth_header ≡ status s)
      × ((Presents s.admin_token auth_header → ⊥)
          → handle_request s status_route auth_header ≡ unauthorized)
      × (handle_request s health_route auth_header ≡ ok_text)
unfolding handle_request
handle_request-Presents s auth_header =
    let (sound, complete) = authorized-Presents s.admin_token auth_header in
    (
      λ p. rw (complete p) refl,
      λ none'. elim (Bool-cases (authorized s.admin_token auth_header)) [
        | inl yes' ↦ absurd (none' (sound yes'))
        | inr no' ↦ rw no' refl
      ],
      refl,
    )
