-- ===== src/Domain/Status/Laws.antt =====
-- The names of the statuses of internal/core/domain/status.go.
use mathlib.Core.Path.{subst}
use ephemos.Domain.Status.{
  status_unknown, status_other, parse_status, status_table, status_is_valid, status_string, Status,
  look_up,
}
use ephemos.Base.{
  ◌≡◌, refl, sym, ap, ◌∙◌, ◌↔◌, inl, inr, Bool, true, some, List, [], ◌∷◌, if◌then◌else◌,
  Bool-cases, All,
}
use ephemos.GoText.{Text, text_eq}
use ephemos.GoText.Laws.{text_eq_iff}
use ephemos.Domain.Status.{
  status_healthy, status_unhealthy, status_up, status_down, status_running, status_stopped,
  status_active, status_inactive, status_ready, status_not_ready, status_enabled, status_disabled,
}

same : (v w : Status) → some v ≡ some w → v ≡ w
same v w h = cc

-- A text of the table with its status: the status is valid and the text is its name.
IsEntry : Text × Status → Type 0
IsEntry (t, v) = (status_is_valid v ≡ true) × (status_string v ≡ t)

-- What the table finds is an entry of it.
look_up-string :
    (s : Text) (table : List (Text × Status)) (v : Status)
    → All IsEntry table
    → look_up s table ≡ some v
    → IsEntry (s, v)
unfolding look_up IsEntry
look_up-string s [] v a h = cc
look_up-string s ((t, w) ∷ table) v (e, a) h = elim (Bool-cases (text_eq t s)) [
  | inl q ↦
      let e' = same w v (sym (ap (λ (t : Bool). if t then some w else look_up s table) q) ∙ h) in
      (ap status_is_valid (sym e') ∙ e.0, ap status_string (sym e') ∙ e.1 ∙ (text_eq_iff t s).0 q)
  | inr q ↦
      look_up-string s table v a
        (sym (ap (λ (t : Bool). if t then some w else look_up s table) q) ∙ h)
]

table_entries : All IsEntry status_table
unfolding status_string status_is_valid IsEntry
table_entries = (
  (refl, refl),
  (
    (refl, refl),
    (
      (refl, refl),
      (
        (refl, refl),
        (
          (refl, refl),
          (
            (refl, refl),
            (
              (refl, refl),
              ((refl, refl), ((refl, refl), ((refl, refl), ((refl, refl), ((refl, refl), tt))))),
            ),
          ),
        ),
      ),
    ),
  ),
)

parse_status-string :
    (v : Status) → status_is_valid v ≡ true → parse_status (status_string v) ≡ some v
unfolding status_is_valid parse_status status_string look_up
parse_status-string status_unknown h = cc
parse_status-string status_other h = cc
parse_status-string status_healthy h = refl
parse_status-string status_unhealthy h = refl
parse_status-string status_up h = refl
parse_status-string status_down h = refl
parse_status-string status_running h = refl
parse_status-string status_stopped h = refl
parse_status-string status_active h = refl
parse_status-string status_inactive h = refl
parse_status-string status_ready h = refl
parse_status-string status_not_ready h = refl
parse_status-string status_enabled h = refl
parse_status-string status_disabled h = refl

-- ParseStatus gives a status for a text exactly if that status is valid and the text is its String.
parse_status_iff :
    (s : Text) (v : Status)
    → (parse_status s ≡ some v) ↔ ((status_is_valid v ≡ true) × (status_string v ≡ s))
unfolding parse_status IsEntry
parse_status_iff s v = (
  λ h. look_up-string s status_table v table_entries h,
  λ (h, e). subst (λ (t : Text). parse_status t ≡ some v) e (parse_status-string v h),
)
