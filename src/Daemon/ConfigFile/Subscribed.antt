-- ===== src/Daemon/ConfigFile/Subscribed.antt =====
-- Which sections of a file are handled, and by whom (src/daemon/config-file.cpp).
use ndns.Prelude.{
  ◌≡◌, refl, ap, ◌∙◌, sym, arith, ◌⊎◌, ◌↔◌, Bool, Option, none, some, List, [], ◌∷◌, String, inl,
  inr,
}
use ndns.Daemon.ConfigFile.{
  Thrown, config_error, out_of_range, other_exception, ConfigSectionHandler, ConfigFile,
  throw_error_on_unknown_section, subscriber_at, recover, handle, process_section, then_next,
  process_sections, process,
}

some-none : (t : Thrown) → some t ≡ none → ⊥
some-none t h = absurd (ground arith)

module _ (Section S : Type 0) (c : ConfigFile Section S) (is_dry_run : Bool)
    (filename : String) where
  -- Each section, in the file's order, has a subscriber that takes the state on without a throw.
  pub AllHandled : List (String × Section) → S → S → Type 0
  AllHandled [] s t = s ≡ t
  AllHandled (i ∷ is) s t =
      (subscriber : ConfigSectionHandler Section S) × (subscriber_at Section S i.0 c.subscriptions
        ≡ some subscriber)
      × ((u : S) × (subscriber i.1 is_dry_run filename s ≡ (none, u)) × AllHandled is u t)

  Outcome-cases :
      (r : Option Thrown × S)
      → ((u : S) × (r ≡ (none, u))) ⊎ ((t : Thrown) × (u : S) × (r ≡ (some t, u)))
  Outcome-cases (none, u) = inl (u, refl)
  Outcome-cases (some t, u) = inr (t, u, refl)

  recover-fails :
      (callback : S → Option Thrown × S) (t : Thrown) (u : S)
      → ((s : S) → callback s ≡ (some config_error, s))
      → (e : Thrown) × (recover Section S callback (some t, u) ≡ (some e, u))
  unfolding recover
  recover-fails callback out_of_range u h = (config_error, h u)
  recover-fails callback config_error u h = (config_error, refl)
  recover-fails callback other_exception u h = (other_exception, refl)

  callback-fails :
      (i : String × Section) (s : S)
      → c.unknown_section_callback ≡ throw_error_on_unknown_section Section S
      → c.unknown_section_callback filename i.0 i.1 is_dry_run s ≡ (some config_error, s)
  unfolding throw_error_on_unknown_section
  callback-fails i s q = ap (λ f. f filename i.0 i.1 is_dry_run s) q

  handle-ok :
      (i : String × Section) (m : Option (ConfigSectionHandler Section S)) (s u : S)
      → c.unknown_section_callback ≡ throw_error_on_unknown_section Section S
      → handle Section S c is_dry_run filename i m s ≡ (none, u)
      → (subscriber : ConfigSectionHandler Section S) × (m ≡ some subscriber)
        × (subscriber i.1 is_dry_run filename s ≡ (none, u))
  unfolding handle recover
  handle-ok i none s u q h =
      absurd (some-none config_error (ap (λ r. r.0) (sym (callback-fails i s q) ∙ h)))
  handle-ok i (some f) s u q h = elim (Outcome-cases (f i.1 is_dry_run filename s)) [
    | inl (v, r) ↦ (
      f,
      refl,
      r
          ∙ (sym (ap (recover Section S (c.unknown_section_callback filename i.0 i.1 is_dry_run)) r)
              ∙ h),
    )
    | inr (t, v, r) ↦
        let (e, k) =
          recover-fails (c.unknown_section_callback filename i.0 i.1 is_dry_run) t v
            (λ w. callback-fails i w q) in
        absurd (
          some-none e (
            ap (λ x. x.0)
              (sym k
                ∙ (sym (
                      ap
                        (recover Section S (c.unknown_section_callback filename i.0 i.1 is_dry_run))
                        r)
                    ∙ h))))
  ]

  process_sections-AllHandled :
      (is : List (String × Section)) (s t : S)
      → c.unknown_section_callback ≡ throw_error_on_unknown_section Section S
      → process_sections Section S c is_dry_run filename is s ≡ (none, t)
      → AllHandled is s t
  unfolding process_sections process_section then_next AllHandled
  process_sections-AllHandled [] s t q h = ap (λ r. r.1) h
  process_sections-AllHandled (i ∷ is) s t q h =
      elim (Outcome-cases (process_section Section S c is_dry_run filename i s)) [
        | inl (u, e) ↦
            let (f, a, b) = handle-ok i (subscriber_at Section S i.0 c.subscriptions) s u q e in
            (
              f,
              a,
              (
                u,
                b,
                process_sections-AllHandled is u t q (
                    sym (
                      ap (then_next Section S (process_sections Section S c is_dry_run filename is))
                        e)
                    ∙ h),
              ),
            )
        | inr (x, u, e) ↦ absurd (
            some-none x (
              ap (λ r. r.0)
                (sym (
                    ap (then_next Section S (process_sections Section S c is_dry_run filename is))
                      e)
                  ∙ h)))
      ]

  AllHandled-process_sections :
      (is : List (String × Section)) (s t : S)
      → AllHandled is s t
      → process_sections Section S c is_dry_run filename is s ≡ (none, t)
  unfolding process_sections then_next AllHandled process_section handle recover
  AllHandled-process_sections [] s t h = ap (λ x. (none, x)) h
  AllHandled-process_sections (i ∷ is) s t (f, a, (u, b, rest)) =
      let one : process_section Section S c is_dry_run filename i s ≡ (none, u) =
        ap (λ m. handle Section S c is_dry_run filename i m s) a
        ∙ ap (recover Section S (c.unknown_section_callback filename i.0 i.1 is_dry_run)) b in
      ap (then_next Section S (process_sections Section S c is_dry_run filename is)) one
      ∙ AllHandled-process_sections is u t rest

  -- With the callback that throws on an unknown section, a file is processed without a throw exactly
  -- if each of its sections, in order, has a subscriber that throws nothing, and the state then is
  -- what the last of them leaves.
  pub process_iff :
      (s t : S)
      → c.unknown_section_callback ≡ throw_error_on_unknown_section Section S
      → (process Section S c is_dry_run filename s ≡ (none, t)) ↔ AllHandled c.global s t
  unfolding process
  process_iff s t q =
      (process_sections-AllHandled c.global s t q, AllHandled-process_sections c.global s t)
