-- ===== src/OpenP2P/Kept.antt =====
-- Neither kind of tunnel is touched by a change of the other (internal/openp2p/config.go).
use opl_core.Prelude.{
  ◌≡◌, Bool, true, false, not, ◌||◌, List, [], ◌∷◌, ◌++◌, ok, any, arith, refl, ap, ◌∙◌, Bool-cases,
  inl, inr, append-nil, ok_inj, subst,
}
use opl_core.OpenP2P.{
  App, Config, is_internal, user_apps, internal_apps, validate_app, validate_config, save, load,
  replace_user_apps, replace_user_in, set_internal, set_internal_in,
}

internal-append :
    (xs ys : List App) → internal_apps (xs ++ ys) ≡ internal_apps xs ++ internal_apps ys
unfolding internal_apps
internal-append [] ys = refl
internal-append (x ∷ xs) ys = ground (arith, internal-append xs ys)

user-append : (xs ys : List App) → user_apps (xs ++ ys) ≡ user_apps xs ++ user_apps ys
unfolding user_apps
user-append [] ys = refl
user-append (x ∷ xs) ys = ground (arith, user-append xs ys)

internal-internal : (xs : List App) → internal_apps (internal_apps xs) ≡ internal_apps xs
unfolding internal_apps
internal-internal [] = refl
internal-internal (x ∷ xs) = ground (arith, internal-internal xs)

user-user : (xs : List App) → user_apps (user_apps xs) ≡ user_apps xs
unfolding user_apps
user-user [] = refl
user-user (x ∷ xs) = ground (arith, user-user xs)

user-internal : (xs : List App) → user_apps (internal_apps xs) ≡ []
unfolding user_apps internal_apps
user-internal [] = refl
user-internal (x ∷ xs) = ground (arith, user-internal xs)

internal-user : (xs : List App) → internal_apps (user_apps xs) ≡ []
unfolding user_apps internal_apps
internal-user [] = refl
internal-user (x ∷ xs) = ground (arith, internal-user xs)

all-user :
    (xs : List App)
    → any (λ app. is_internal app || not (validate_app app)) xs ≡ false
    → (user_apps xs ≡ xs) × (internal_apps xs ≡ [])
unfolding user_apps internal_apps
all-user [] h = (refl, refl)
all-user (x ∷ xs) h = ground (arith, all-user xs)

all-internal :
    (xs : List App)
    → any (λ app. not (is_internal app) || not (validate_app app)) xs ≡ false
    → (internal_apps xs ≡ xs) × (user_apps xs ≡ [])
unfolding user_apps internal_apps
all-internal [] h = (refl, refl)
all-internal (x ∷ xs) h = ground (arith, all-internal xs)

save_ok :
    (written : Bool) (c : Config) {d : Config}
    → save written c ≡ ok d
    → (c ≡ d) × (validate_config c ≡ true)
unfolding save
save_ok written c h = elim (Bool-cases (validate_config c)) [
  | inr bad ↦ absurd (let g = simp bad at h in cc)
  | inl good ↦ elim (Bool-cases written) [
    | inr lost ↦ absurd (let g = simp (good, lost) at h in cc)
    | inl done ↦ (ok_inj (simp (good, done) at h), good)
  ]
]

-- After the user's tunnels have been replaced, the user's are those given, in their order, the core's
-- are those of the file, in theirs, the network section and the log level are those of the file, and what
-- is stored is valid.
pub replace_user_apps-keeps :
    (written : Bool) (apps : List App) (old : Config) {new : Config}
    → replace_user_apps written apps (ok old) ≡ ok new
    → (user_apps new.apps ≡ apps)
      × (internal_apps new.apps ≡ internal_apps old.apps)
      × (new.network ≡ old.network)
      × (new.log_level ≡ old.log_level)
      × (validate_config new ≡ true)
unfolding replace_user_apps replace_user_in load
replace_user_apps-keeps written apps old {new} h =
    let bad = any (λ app. is_internal app || not (validate_app app)) apps in
    let changed : Config = record old { apps = apps ++ internal_apps old.apps } in
    elim (Bool-cases bad) [
      | inl refused ↦ absurd (let g = simp refused at h in cc)
      | inr fine ↦ elim (Bool-cases (validate_config old)) [
        | inr broken ↦ absurd (let g = simp (fine, broken) at h in cc)
        | inl valid ↦
            let (e, v) = save_ok written changed (simp (fine, valid) at h) in
            let (users, internals) = all-user apps fine in
            subst
              (λ (x : Config).
                (user_apps x.apps ≡ apps)
                × (internal_apps x.apps ≡ internal_apps old.apps)
                × (x.network ≡ old.network)
                × (x.log_level ≡ old.log_level)
                × (validate_config x ≡ true))
              e
              (
                user-append apps (internal_apps old.apps)
                    ∙ ap (λ r. user_apps apps ++ r) (user-internal old.apps)
                    ∙ append-nil (user_apps apps)
                    ∙ users,
                internal-append apps (internal_apps old.apps)
                    ∙ ap (λ r. r ++ internal_apps (internal_apps old.apps)) internals
                    ∙ internal-internal old.apps,
                refl,
                refl,
                v,
              )
      ]
    ]

-- After the core's tunnels have been set, they are those given, in their order, the user's are those
-- of the file, in theirs, the network section and the log level are those of the file, and what is stored
-- is valid.
pub set_internal-keeps :
    (written : Bool) (apps : List App) (old : Config) {new : Config}
    → set_internal written apps (ok old) ≡ ok new
    → (internal_apps new.apps ≡ apps)
      × (user_apps new.apps ≡ user_apps old.apps)
      × (new.network ≡ old.network)
      × (new.log_level ≡ old.log_level)
      × (validate_config new ≡ true)
unfolding set_internal set_internal_in load
set_internal-keeps written apps old {new} h =
    let bad = any (λ app. not (is_internal app) || not (validate_app app)) apps in
    let changed : Config = record old { apps = user_apps old.apps ++ apps } in
    elim (Bool-cases bad) [
      | inl refused ↦ absurd (let g = simp refused at h in cc)
      | inr fine ↦ elim (Bool-cases (validate_config old)) [
        | inr broken ↦ absurd (let g = simp (fine, broken) at h in cc)
        | inl valid ↦
            let (e, v) = save_ok written changed (simp (fine, valid) at h) in
            let (internals, users) = all-internal apps fine in
            subst
              (λ (x : Config).
                (internal_apps x.apps ≡ apps)
                × (user_apps x.apps ≡ user_apps old.apps)
                × (x.network ≡ old.network)
                × (x.log_level ≡ old.log_level)
                × (validate_config x ≡ true))
              e
              (
                internal-append (user_apps old.apps) apps
                    ∙ ap (λ r. r ++ internal_apps apps) (internal-user old.apps)
                    ∙ internals,
                user-append (user_apps old.apps) apps
                    ∙ ap (λ r. user_apps (user_apps old.apps) ++ r) users
                    ∙ append-nil (user_apps (user_apps old.apps))
                    ∙ user-user old.apps,
                refl,
                refl,
                v,
              )
      ]
    ]
