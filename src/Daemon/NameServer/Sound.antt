-- ===== src/Daemon/NameServer/Sound.antt =====
-- What the name server (src/daemon/name-server.cpp) leaves of the soundness of its database.
use ndns.Prelude.{
  ◌≡◌, arith, ◌⊎◌, refl, Bool, ◌&&◌, ◌||◌, Option, none, some, [], ◌∷◌, if◌then◌else◌, Exec, Keeps,
  Keeps-bind, Keeps-if, Option-cases, inl, inr, pure, raise, Result, ok, bad_packet,
}
use ndns.Ndn.{Ndn}
use ndns.Packets.{Name, Component, Data, Interest, component_eq, component_lt}
use ndns.Label.{MatchResult, match_interest, match_data, ndns_update_label}
use ndns.Daemon.Sqlite.{Sqlite, Db}
use ndns.Daemon.DbMgr.Rrsets.{find_rrset, find_lower_bound, update_rrset, insert_rrset}
use ndns.Daemon.DbMgr.Sound.{Sound}
use ndns.Daemon.DbMgr.Sound.Operations.{
  find_rrset-Sound, find_lower_bound-Sound, update_rrset-Sound, insert_rrset-Sound,
}
use ndns.Daemon.NameServer.{
  NameServer, Host, on_db, put, rrset_of, answer_absent, decoded, handle_query, try_update,
  do_update, handle_update, on_interest, update_answer, return_code,
}

module _ ⦃ndn : Ndn⦄ where
  pub label-cases :
      (n : Name)
      → (n ≡ [])
        ⊎ ((c : Component) × (n ≡ c ∷ []))
        ⊎ ((c d : Component) × (m : Name) × (n ≡ c ∷ d ∷ m))
  label-cases [] = inl refl
  label-cases (c ∷ []) = inr (inl (c, refl))
  label-cases (c ∷ d ∷ m) = inr (inr (c, d, m, refl))

  -- The database behind a server is sound.
  abbrev pub HostSound : Host → Type 0
  HostSound h = Sound h.db

  on_db-HostSound : {A : Type 0} (m : Exec Db A) → Keeps Sound m → Keeps HostSound (on_db m)
  on_db-HostSound m k h s = k h.db s

  answer_absent-HostSound :
      (server : NameServer) (now : Component) (i : Interest) (re : MatchResult)
      → Keeps HostSound (answer_absent server now i re)
  unfolding answer_absent
  answer_absent-HostSound server now i re =
      Keeps-bind HostSound (on_db (find_lower_bound _)) _
        (on_db-HostSound (find_lower_bound _) (find_lower_bound-Sound _))
        (λ found. Keeps-if HostSound found.1 _ _ (λ h s. s) (λ h s. s))

  handle_query-HostSound :
      (server : NameServer) (now : Component) (i : Interest) (re : MatchResult)
      → Keeps HostSound (handle_query server now i re)
  unfolding handle_query decoded
  handle_query-HostSound server now i re =
      Keeps-bind HostSound (on_db (find_rrset (rrset_of server re.rr_label re.rr_type))) _
        (on_db-HostSound (find_rrset (rrset_of server re.rr_label re.rr_type))
          (find_rrset-Sound (rrset_of server re.rr_label re.rr_type)))
        (λ found.
          Keeps-if HostSound
            (found.1 && (ndn.is_empty re.version || component_eq re.version found.0.version)) _ _
            (Keeps-bind HostSound (decoded found.0.rr_data) put
              (stays (ndn.block_data found.0.rr_data)) (λ answer h s. s))
            (answer_absent-HostSound server now i re))
    where
      stays :
          (d : Option Data)
          → Keeps HostSound {A = Data} (elim d [ none ↦ raise bad_packet | some x ↦ pure x ])
      stays none = λ h s. s
      stays (some d) = λ h s. s

  try_update-Sound :
      ⦃sqlite : Sqlite⦄ (server : NameServer) (re : MatchResult) (d : Data)
      → Keeps Sound (try_update server re d)
  unfolding try_update
  try_update-Sound server re d =
      Keeps-bind Sound (find_rrset (rrset_of server re.rr_label re.rr_type)) _
        (find_rrset-Sound (rrset_of server re.rr_label re.rr_type))
        (λ found.
          Keeps-if Sound found.1 _ _
            (Keeps-if Sound (component_lt found.0.version re.version) _ _
              (Keeps-bind Sound (update_rrset _) _ (update_rrset-Sound _) (λ u db h. h))
              (λ db h. h))
            (Keeps-bind Sound (insert_rrset _) _ (insert_rrset-Sound _) (λ u db h. h)))

  do_update-HostSound :
      ⦃sqlite : Sqlite⦄ (server : NameServer) (now : Component) (i : Interest) (d : Data)
      → Keeps HostSound (do_update server now i d)
  unfolding do_update
  do_update-HostSound server now i d h s = go (match_data d.name server.zone.name)
    where
      go :
          (m : Option MatchResult)
          → HostSound
              (elim m as (λ x. Result (Unit {0}) × Host) [
                | none ↦ (ok tt, h)
                | some re ↦
                    let r = try_update server re d h.db in
                    put (update_answer server now i (return_code r.0)) (record h { db = r.1 })
              ]).1
      go none = s
      go (some re) = try_update-Sound server re d h.db s

  handle_update-HostSound :
      ⦃sqlite : Sqlite⦄ (server : NameServer) (valid : Data → Bool) (now : Component) (i : Interest)
      (re : MatchResult)
      → Keeps HostSound (handle_update server valid now i re)
  unfolding handle_update
  handle_update-HostSound server valid now i re h s = elim (label-cases re.rr_label) [
    | inl e ↦ rw e s
    | inr (inr (c, d, n, e)) ↦ rw e s
    | inr (inl (c, e)) ↦ elim (Option-cases (ndn.component_from_value c)) [
      | inl v ↦ let w : handle_update server valid now i re h ≡ (ok tt, h) = ground arith in rw w s
      | inr (b, v) ↦ elim (Option-cases (ndn.block_data b)) [
        | inl r ↦
            let w : handle_update server valid now i re h ≡ (ok tt, h) = ground arith in rw w s
        | inr (d, r) ↦
            let w : handle_update server valid now i re h
                ≡ (if valid d then do_update server now i d else pure tt) h =
              ground arith in
            rw w (
              Keeps-if HostSound (valid d) (do_update server now i d) (pure tt)
                (do_update-HostSound server now i d) (λ g t. t) h s)
      ]
    ]
  ]

  -- Whatever Interest comes in, a query, an update or none of the zone's, and whatever the validator
  -- says of the update, a server leaves a sound database sound.
  pub on_interest-Sound :
      ⦃sqlite : Sqlite⦄ (server : NameServer) (valid : Data → Bool) (now : Component) (i : Interest)
      (h : Host)
      → Sound h.db
      → Sound (on_interest server valid now i h).1.db
  unfolding on_interest
  on_interest-Sound server valid now i h s = go (match_interest i.name server.zone.name)
    where
      go :
          (m : Option MatchResult)
          → HostSound
              ((elim m as (λ x. Exec Host (Unit {0})) [
                | none ↦ pure tt
                | some re ↦
                    if component_eq re.rr_type ndns_update_label
                    then handle_update server valid now i re
                    else handle_query server now i re
              ])
                h).1
      go none = s
      go (some re) =
          Keeps-if HostSound (component_eq re.rr_type ndns_update_label) _ _
            (handle_update-HostSound server valid now i re) (handle_query-HostSound server now i re)
            h s
