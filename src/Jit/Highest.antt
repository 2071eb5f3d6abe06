-- ===== src/Jit/Highest.antt =====
-- Which role the resolution picks.
use axiaops.Common.{
  ltb, if◌then◌else◌, Bool-cases, contains, string_eq, nat_eq, ℕ, ◌<◌, String, ◌≡◌, refl, sym, ap,
  ◌∙◌, ◌⊎◌, inl, inr, true, ◌&&◌, List, [], ◌∷◌, arith,
}
use axiaops.Jit.{Mapping, priority, better, best_from, or_viewer, resolve_role}

-- The highest priority among a start and the mappings of the user's groups.
abbrev pub top_priority : List String → List Mapping → ℕ → ℕ
top_priority user_groups [] best = best
top_priority user_groups (m ∷ ms) best = top_priority user_groups ms (
    if contains user_groups m.group_external_id && ltb best (priority m.role)
    then priority m.role
    else best)

-- The role is that of a mapping of one of the user's groups.
abbrev pub Mapped : List String → List Mapping → String → Type 0
Mapped user_groups [] role = ⊥
Mapped user_groups (m ∷ ms) role =
    ((contains user_groups m.group_external_id ≡ true) × (m.role ≡ role))
    ⊎ Mapped user_groups ms role

better-priority :
    (user_groups : List String) (m : Mapping) (role : String)
    → better user_groups m (role, priority role) ≡ (
        if contains user_groups m.group_external_id && ltb (priority role) (priority m.role)
        then (m.role, priority m.role)
        else (role, priority role))
unfolding better priority
better-priority user_groups m role = ground arith

best_from-cons :
    (user_groups : List String) (m : Mapping) (ms : List Mapping) (role next : String)
    → better user_groups m (role, priority role) ≡ (next, priority next)
    → best_from user_groups (m ∷ ms) (role, priority role)
      ≡ best_from user_groups ms (next, priority next)
unfolding best_from
best_from-cons user_groups m ms role next e = ap (λ b. best_from user_groups ms b) e

-- What is known of the best role and priority after some rounds that start at `role`.
abbrev Best : List String → List Mapping → String → String × ℕ → Type 0
Best user_groups ms role best =
    (best.1 ≡ top_priority user_groups ms (priority role))
    × (best.1 ≡ priority best.0)
    × ((best.0 ≡ role) ⊎ (Mapped user_groups ms best.0 × (priority role < best.1)))

best_from-Best :
    (user_groups : List String) (ms : List Mapping) (role : String)
    → Best user_groups ms role (best_from user_groups ms (role, priority role))
unfolding best_from
best_from-Best user_groups [] role = (refl, refl, inl refl)
best_from-Best user_groups (m ∷ ms) role =
    elim (Bool-cases
      (contains user_groups m.group_external_id && ltb (priority role) (priority m.role))) [
        | inl raised ↦
            let step =
              best_from-cons user_groups m ms role m.role
                (rw raised at (better-priority user_groups m role)) in
            let (t, p, from) = best_from-Best user_groups ms m.role in
            let member : contains user_groups m.group_external_id ≡ true = ground arith in
            let higher : priority role < priority m.role = ground arith in
            rw (raised, step)
              (
                t,
                p,
                elim from [
                  | inl e ↦ inr (inl (member, sym e), rw (p, e) higher)
                  | inr (mapped, above) ↦ inr (inr mapped, omega arith)
                ],
              )
        | inr kept ↦
            let step =
              best_from-cons user_groups m ms role role
                (rw kept at (better-priority user_groups m role)) in
            let (t, p, from) = best_from-Best user_groups ms role in
            rw (kept, step)
              (t, p, elim from [ inl e ↦ inl e | inr (mapped, above) ↦ inr (inr mapped, above) ])
      ]

top_priority-nil : (ms : List Mapping) (best : ℕ) → top_priority [] ms best ≡ best
top_priority-nil [] best = refl
top_priority-nil (m ∷ ms) best = top_priority-nil ms best

-- The resolved role has the highest priority among the default role (viewer where none is set) and
-- the mappings of the user's groups, unknown roles counting as 0; it is the default role, or the
-- role of such a mapping with a priority above that of the default.
pub resolve_role-highest :
    (mappings : List Mapping) (user_groups : List String) (default_role : String)
    → let r = resolve_role mappings user_groups default_role in
      let default = or_viewer default_role in
      (priority r ≡ top_priority user_groups mappings (priority default))
      × ((r ≡ default) ⊎ (Mapped user_groups mappings r × (priority default < priority r)))
unfolding resolve_role
resolve_role-highest [] user_groups default_role = (refl, inl refl)
resolve_role-highest (m ∷ ms) [] default_role =
    (sym (top_priority-nil (m ∷ ms) (priority (or_viewer default_role))), inl refl)
resolve_role-highest (m ∷ ms) (g ∷ gs) default_role =
    let (t, p, from) = best_from-Best (g ∷ gs) (m ∷ ms) (or_viewer default_role) in
    (sym p ∙ t, elim from [ inl e ↦ inl e | inr (mapped, above) ↦ inr (mapped, rw p at above) ])
