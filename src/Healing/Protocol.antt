-- ===== src/Healing/Protocol.antt =====
-- The order in which `recreate_with_offset` and `recreate_without_offset` of healing/actions.py replace
-- a connector.
use self_healing_kafka_syste.Base.{none, ◌≡◌, true, false, Option, some, List, [], ◌∷◌, not, ◌&&◌}
use self_healing_kafka_syste.Base.Text.{Text, text_eq}
use self_healing_kafka_syste.Domain.{ConnectorJob, Settings, HealthResult}
use self_healing_kafka_syste.Domain.Json.{pop, Fields}
use self_healing_kafka_syste.Effect.Exn.{ok, raised, text}
use self_healing_kafka_syste.Effect.World.{Env, Request}
use self_healing_kafka_syste.Effect.Does.{Does-pure, Does-raise, Does-if, Does-bind}
use self_healing_kafka_syste.Effect.Follows.{
  Sends, Sends-send, Sends-bind, Sends-catch, Sends-attempt, Follows, Follows-quiet, Follows-if,
  Follows-send, Follows-bind, Follows-then, Follows-one, Follows-ok,
}
use self_healing_kafka_syste.Client.Rest.{
  stop_connector, create_connector, patch_offsets, resume_connector, delete_connector,
}
use self_healing_kafka_syste.Client.RestDoes.{Does-raise_for_status, Does-json}
use self_healing_kafka_syste.Naming.Version.{is_versioned_connector_name}
use self_healing_kafka_syste.Store.StoreDoes.{Does-record_connector_log, Does-set_current_name}
use self_healing_kafka_syste.Healing.Failure.{
  original_connector_name, delete_failed_versioned_connector,
}
use self_healing_kafka_syste.Healing.HealingDoes.{
  Does-log_fresh_failure, Does-log_recreate_with_offset_failure, Does-created_but_failed,
  Does-creation_failed,
}
use self_healing_kafka_syste.Healing.Fresh.{record_fresh, create_fresh, recreate_without_offset}
use self_healing_kafka_syste.Naming.Replacement.{build_replacement_connector}
use self_healing_kafka_syste.Healing.Recreate.{
  Plan, record_recreated, resume_replacement, patch_replacement, create_replacement,
  stop_and_replace,
}

module _ (env : Env) where
  Sends-stop_connector : (name : Text) → Sends (Request.stop name) (stop_connector env name)
  unfolding stop_connector
  Sends-stop_connector name =
      Sends-catch
        (Sends-bind (Sends-send env _) λ resp. Does-if _ (Does-pure true) (
          Does-if _ (Does-pure false) (Does-bind (Does-raise_for_status resp) λ _. Does-pure true)))
        λ x. Does-if _ (Does-pure false) (Does-raise x)

  Sends-create_connector :
      (name : Text) (config : Fields) (state : Option Text)
      → Sends (Request.create name config state) (create_connector env name config state)
  unfolding create_connector
  Sends-create_connector name config state =
      Sends-bind (Sends-send env _)
        λ resp. Does-bind (Does-raise_for_status resp) λ _. Does-json resp

  Sends-patch_offsets :
      (name : Text) (offsets : Fields)
      → Sends (Request.patch_offsets name offsets) (patch_offsets env name offsets)
  unfolding patch_offsets
  Sends-patch_offsets name offsets =
      Sends-catch
        (Sends-bind (Sends-send env _) λ resp.
          Does-if _ (Does-pure false) (Does-bind (Does-raise_for_status resp) λ _. Does-pure true))
        λ x. Does-if _ (Does-pure false) (Does-raise x)

  Sends-resume_connector : (name : Text) → Sends (Request.resume name) (resume_connector env name)
  unfolding resume_connector
  Sends-resume_connector name =
      Sends-catch
        (Sends-bind (Sends-send env _) λ resp.
          Does-if _ (Does-pure false) (Does-bind (Does-raise_for_status resp) λ _. Does-pure true))
        λ x. Does-if _ (Does-pure false) (Does-raise x)

  Sends-delete_connector : (name : Text) → Sends (Request.delete name) (delete_connector env name)
  unfolding delete_connector
  Sends-delete_connector name =
      Sends-bind (Sends-send env _) λ resp. Does-if _ (Does-pure tt) (Does-raise_for_status resp)

  Follows-delete :
      (settings : Settings) (job : ConnectorJob) (old new : Text)
      → Follows
          (Request.delete old ∷ [])
          (delete_failed_versioned_connector env settings job old new)
  unfolding delete_failed_versioned_connector
  Follows-delete settings job old new =
      Follows-if (text_eq old new) (Follows-quiet _ (Does-pure tt)) (
        Follows-if (not (is_versioned_connector_name old)) (Follows-quiet _ (Does-pure tt)) (
          Follows-if
            (settings.recreate_keep_base_connector
              && text_eq old (original_connector_name env.repr job))
            (Follows-quiet _ (Does-pure tt))
            (Follows-one _ (Sends-catch (Sends-delete_connector old) λ x. Does-pure tt))))

module _ (env : Env) (settings : Settings) (p : Plan) where
  -- The sequence of a replacement: the old connector is stopped; the replacement is created in the
  -- state `STOPPED`, gets the captured offsets and is resumed; the old connector is deleted.
  abbrev pub replacement_requests : List Request
  replacement_requests =
      Request.stop p.job.connector_name
      ∷ Request.create p.connector_name p.config (some (text "STOPPED"))
      ∷ Request.patch_offsets p.connector_name p.offsets
      ∷ Request.resume p.connector_name
      ∷ Request.delete p.job.connector_name
      ∷ []

  last_stage : Follows (Request.delete p.job.connector_name ∷ []) (record_recreated env settings p)
  unfolding record_recreated
  last_stage = Follows-bind (Does-record_connector_log env _) λ _.
      Follows-bind (Does-set_current_name env _ _)
        λ _. Follows-then (Follows-delete env settings _ _ _) λ _. Does-pure true

  resume_stage :
      Follows
        (Request.resume p.connector_name ∷ Request.delete p.job.connector_name ∷ [])
        (resume_replacement env settings p)
  unfolding resume_replacement
  resume_stage =
      Follows-send (Sends-resume_connector env _)
        λ b. Follows-if b last_stage (Follows-quiet _ (Does-created_but_failed env settings p _ _))

  patch_stage :
      Follows
        (Request.patch_offsets p.connector_name p.offsets
          ∷ Request.resume p.connector_name
          ∷ Request.delete p.job.connector_name
          ∷ [])
        (patch_replacement env settings p)
  unfolding patch_replacement
  patch_stage =
      Follows-send (Sends-patch_offsets env _ _) λ b.
        Follows-if b resume_stage (Follows-quiet _ (Does-created_but_failed env settings p _ _))

  create_stage :
      Follows
        (Request.create p.connector_name p.config (some (text "STOPPED"))
          ∷ Request.patch_offsets p.connector_name p.offsets
          ∷ Request.resume p.connector_name
          ∷ Request.delete p.job.connector_name
          ∷ [])
        (create_replacement env settings p)
  unfolding create_replacement
  create_stage = Follows-send (Sends-attempt (Sends-create_connector env _ _ _)) (elim [
    | ok v ↦ patch_stage
    | raised x ↦ Follows-quiet _ (Does-creation_failed env settings p x)
  ])

  -- Whatever fails on the way, the requests of a replacement are a prefix of the sequence: no replacement is
  -- created before the old connector is told to stop, none is resumed before its offsets are
  -- patched, and the old connector is deleted last, if at all.
  pub stop_and_replace-Follows : Follows replacement_requests (stop_and_replace env settings p)
  unfolding stop_and_replace
  stop_and_replace-Follows = Follows-send (Sends-stop_connector env _) λ b.
      Follows-if b create_stage (
        Follows-quiet _
          (Does-bind (Does-log_recreate_with_offset_failure env _ _ _ _) λ _. Does-pure false))

module _ (env : Env) (settings : Settings) (job : ConnectorJob) (result : HealthResult)
    (name : Text) (config : Fields) where
  -- The sequence of a replacement without offsets: stop, create, delete.
  abbrev pub fresh_requests : List Request
  fresh_requests =
      Request.stop job.connector_name
      ∷ Request.create name (pop "snapshot.scn" config) none
      ∷ Request.delete job.connector_name
      ∷ []

  created_stage :
      Follows
        (Request.delete job.connector_name ∷ [])
        (record_fresh env settings job result name (pop "snapshot.scn" config))
  unfolding record_fresh
  created_stage = Follows-bind (Does-record_connector_log env _) λ _.
      Follows-bind (Does-set_current_name env _ _)
        λ _. Follows-then (Follows-delete env settings _ _ _) λ _. Does-pure true

  fresh_stage :
      Follows
        (Request.create name (pop "snapshot.scn" config) none
          ∷ Request.delete job.connector_name
          ∷ [])
        (create_fresh env settings job result name (pop "snapshot.scn" config))
  unfolding create_fresh
  fresh_stage = Follows-send (Sends-attempt (Sends-create_connector env _ _ _)) (elim [
    | ok v ↦ created_stage
    | raised x ↦ Follows-quiet _ (Does-log_fresh_failure env settings job name _)
  ])

  -- When the name and the configuration of the replacement can be built, the requests of a recreation
  -- without offset are a prefix of: stop the old connector, create the replacement without a start
  -- SCN, delete the old connector.
  pub recreate_without_offset-Follows :
      build_replacement_connector env.repr job none false ≡ ok (name, config)
      → Follows fresh_requests (recreate_without_offset env settings job result)
  unfolding recreate_without_offset
  recreate_without_offset-Follows e = rw (e) (
      Follows-ok (name, config) _
        (Follows-send (Sends-stop_connector env _) λ b.
          Follows-if b fresh_stage
            (Follows-quiet _ (Does-log_fresh_failure env settings job name _))))
