-- ===== src/Replication/Outcomes.antt =====
-- The steps of the programs that enable and disable replication, and what each leaves.
use osmdbt_pgoutput.Base.{◌≡◌, refl, ap, ◌∙◌, ◌⊎◌, inl, inr, true, false, [], ◌∷◌}
use osmdbt_pgoutput.Posix.Program.{◌>>◌}
use osmdbt_pgoutput.Posix.Ends.{Ends, Ends-pure, Ends-bind}
use osmdbt_pgoutput.Config.{Config}
use osmdbt_pgoutput.Db.Server.{
  Catalog, with_publication, with_slot, Server, IsServer, IsAble, is_plain, create_publication,
  drop_publication, create_slot, drop_slot,
}
use osmdbt_pgoutput.Replication.{
  show_version, publish_tables, withdraw_tables, enable_slot, disable_slot, enable, disable,
}
use osmdbt_pgoutput.Replication.Catalogs.{
  Between, Seen, given, missing, Ends-query, Ends-transaction, Ends-show_version,
}

module _ (config : Config) where
  -- The steps to a database with the publication and the slot, and back.
  abbrev pub published : Catalog → Catalog
  published c = with_publication config.m_publication true c

  abbrev pub enabled : Catalog → Catalog
  enabled c = with_slot config.m_replication_slot true (published c)

  abbrev pub stopped : Catalog → Catalog
  stopped c = with_slot config.m_replication_slot false c

  abbrev pub disabled : Catalog → Catalog
  disabled c = with_publication config.m_publication false (stopped c)

  -- A run of `osmdbt-enable-replication` that is cut short leaves one of three catalogs.
  abbrev pub Enabling : Catalog → Catalog → Type 0
  Enabling c = Between c (published c) (enabled c)

  abbrev pub Disabling : Catalog → Catalog → Type 0
  Disabling c = Between c (stopped c) (disabled c)

module _ (Fail : Type 0) (sv : Server) (server : IsServer sv) (config : Config)
    (able : IsAble Fail sv) (plain : is_plain config.m_publication ≡ true) (c : Catalog) where
  Ends-publish_tables :
      (c.publications config.m_publication ≡ false) ⊎ Fail
      → Ends
          (Seen sv c c)
          (publish_tables sv config)
          (λ _ w. (sv.pending w ≡ published config c) × Enabling config c (sv.committed w))
          (λ w. Fail × Enabling config c (sv.committed w))
  unfolding publish_tables
  Ends-publish_tables free =
      Ends-bind (λ _ w. (sv.pending w ≡ published config c) × Enabling config c (sv.committed w))
        (Ends-query (sv.exec (create_publication config.m_publication))
          (λ w (p, e) bad. (
            missing (given free (λ h. able.publishes config.m_publication w plain (rw p h))) bad,
            inl ((server.publishes config.m_publication w plain).0 ∙ e),
          ))
          (λ w (p, e) rows got.
            let (same, made) = server.publishes config.m_publication w plain in
            (made rows got ∙ ap (published config) p, inl (same ∙ e))))
        (λ _. Ends-pure tt (λ w h. h))

  Ends-enable_slot :
      (c.slots config.m_replication_slot ≡ false) ⊎ Fail
      → Ends
          (Seen sv (published config c) (published config c))
          (enable_slot sv config)
          (λ _ w. (sv.pending w ≡ enabled config c) × Enabling config c (sv.committed w))
          (λ w. Fail × Enabling config c (sv.committed w))
  unfolding enable_slot
  Ends-enable_slot free =
      Ends-bind (λ _ w. (sv.pending w ≡ enabled config c) × Enabling config c (sv.committed w))
        (Ends-query (sv.exec_prepared create_slot (config.m_replication_slot ∷ []))
          (λ w (p, e) bad. (
            missing (given free (λ h. able.creates_slot config.m_replication_slot w (rw p h))) bad,
            slot_made w e,
          ))
          (λ w (p, e) rows got. (
            (server.creates_slot config.m_replication_slot w).1 rows got
                ∙ ap (with_slot config.m_replication_slot true) p,
            slot_made w e,
          )))
        (λ _. Ends-pure tt (λ w h. h))
    where
      slot_made :
          (w : sv.World)
          → sv.committed w ≡ published config c
          → Enabling config c
              (sv.committed (sv.exec_prepared create_slot (config.m_replication_slot ∷ []) w).1)
      slot_made w e = elim (server.creates_slot config.m_replication_slot w).0 [
        | inl same ↦ inr (inl (same ∙ e))
        | inr made ↦ inr (inr (made ∙ ap (with_slot config.m_replication_slot true) e))
      ]

  Ends-disable_slot :
      (c.slots config.m_replication_slot ≡ true) ⊎ Fail
      → Ends
          (Seen sv c c)
          (disable_slot sv config)
          (λ _ w. (sv.pending w ≡ stopped config c) × Disabling config c (sv.committed w))
          (λ w. Fail × Disabling config c (sv.committed w))
  unfolding disable_slot
  Ends-disable_slot there =
      Ends-bind (λ _ w. (sv.pending w ≡ stopped config c) × Disabling config c (sv.committed w))
        (Ends-query (sv.exec_prepared drop_slot (config.m_replication_slot ∷ []))
          (λ w (p, e) bad. (
            missing (given there (λ h. able.drops_slot config.m_replication_slot w (rw p h))) bad,
            slot_dropped w e,
          ))
          (λ w (p, e) rows got. (
            (server.drops_slot config.m_replication_slot w).1 rows got ∙ ap (stopped config) p,
            slot_dropped w e,
          )))
        (λ _. Ends-pure tt (λ w h. h))
    where
      slot_dropped :
          (w : sv.World)
          → sv.committed w ≡ c
          → Disabling config c
              (sv.committed (sv.exec_prepared drop_slot (config.m_replication_slot ∷ []) w).1)
      slot_dropped w e = elim (server.drops_slot config.m_replication_slot w).0 [
        | inl same ↦ inl (same ∙ e)
        | inr dropped ↦ inr (inl (dropped ∙ ap (stopped config) e))
      ]

  Ends-withdraw_tables :
      Ends
        (Seen sv (stopped config c) (stopped config c))
        (withdraw_tables sv config)
        (λ _ w. (sv.pending w ≡ disabled config c) × Disabling config c (sv.committed w))
        (λ w. Fail × Disabling config c (sv.committed w))
  unfolding withdraw_tables
  Ends-withdraw_tables =
      Ends-bind (λ _ w. (sv.pending w ≡ disabled config c) × Disabling config c (sv.committed w))
        (Ends-query (sv.exec (drop_publication config.m_publication))
          (λ w (p, e) bad. (
            missing (able.withdraws config.m_publication w plain) bad,
            inr (inl ((server.withdraws config.m_publication w plain).0 ∙ e)),
          ))
          (λ w (p, e) rows got.
            let (same, dropped) = server.withdraws config.m_publication w plain in
            (
              dropped rows got ∙ ap (with_publication config.m_publication false) p,
              inr (inl (same ∙ e)),
            )))
        (λ _. Ends-pure tt (λ w h. h))

  pub Ends-enable :
      (c.publications config.m_publication ≡ false) ⊎ Fail
      → (c.slots config.m_replication_slot ≡ false) ⊎ Fail
      → Ends
          (λ w. sv.committed w ≡ c)
          (enable sv config)
          (λ b w. (b ≡ true) × (sv.committed w ≡ enabled config c))
          (λ w. Fail × Enabling config c (sv.committed w))
  unfolding enable
  Ends-enable no_publication no_slot =
      Ends-bind (λ _ w. sv.committed w ≡ published config c)
        (Ends-transaction Fail sv server config able c (published config c) (enabled config c) c
          (published config c) (show_version sv >> publish_tables sv config) (inl refl)
          (inr (inl refl))
          (Ends-bind (λ _. Seen sv c c)
            (Ends-show_version Fail sv server config able c (published config c) (enabled config c)
              c (inl refl))
            (λ _. Ends-publish_tables no_publication)))
        (λ _.
          Ends-bind (λ _ w. sv.committed w ≡ enabled config c)
            (Ends-transaction Fail sv server config able c (published config c) (enabled config c)
              (published config c) (enabled config c) (enable_slot sv config) (inr (inl refl))
              (inr (inr refl)) (Ends-enable_slot no_slot))
            (λ _. Ends-pure true (λ w h. (refl, h))))

  pub Ends-disable :
      (c.slots config.m_replication_slot ≡ true) ⊎ Fail
      → Ends
          (λ w. sv.committed w ≡ c)
          (disable sv config)
          (λ b w. (b ≡ true) × (sv.committed w ≡ disabled config c))
          (λ w. Fail × Disabling config c (sv.committed w))
  unfolding disable
  Ends-disable slot_there =
      Ends-bind (λ _ w. sv.committed w ≡ stopped config c)
        (Ends-transaction Fail sv server config able c (stopped config c) (disabled config c) c
          (stopped config c) (show_version sv >> disable_slot sv config) (inl refl) (inr (inl refl))
          (Ends-bind (λ _. Seen sv c c)
            (Ends-show_version Fail sv server config able c (stopped config c) (disabled config c) c
              (inl refl))
            (λ _. Ends-disable_slot slot_there)))
        (λ _.
          Ends-bind (λ _ w. sv.committed w ≡ disabled config c)
            (Ends-transaction Fail sv server config able c (stopped config c) (disabled config c)
              (stopped config c) (disabled config c) (withdraw_tables sv config) (inr (inl refl))
              (inr (inr refl)) Ends-withdraw_tables)
            (λ _. Ends-pure true (λ w h. (refl, h))))
