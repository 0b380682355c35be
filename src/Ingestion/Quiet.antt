-- ===== src/Ingestion/Quiet.antt =====
-- What is never done again with a message that was recalled.
use feishu_shadow_agent.Prelude.{
  subst, sym, false, ◌≡◌, refl, ap, ◌∙◌, Option, some, String, Bool, true,
}
use feishu_shadow_agent.Types.{NormalizedMessage}
use feishu_shadow_agent.Store.{Db, MessageRow, find_message}
use feishu_shadow_agent.Store.Messages.{
  upsert_found, upsert_message_revision, upsert_existing, unchanged, MessageUpsertResult,
}
use feishu_shadow_agent.Tasks.{TaskDb}
use feishu_shadow_agent.Ingestion.{
  false, Ingestion, finished, ignore_as, process_message, after_upsert, ingest_stored,
  ingest_tombstone,
}

recalled-unchanged :
    (m : NormalizedMessage) (hash : String) (confirmed : Bool) (db : Db) (o : Option MessageRow)
    (row : MessageRow)
    → o ≡ some row
    → row.is_deleted ≡ true
    → upsert_found m hash confirmed o db ≡ (unchanged row false, db)
unfolding upsert_found upsert_existing
recalled-unchanged m hash confirmed db o row h gone =
    subst
      (λ (x : Option MessageRow). upsert_found m hash confirmed x db ≡ (unchanged row false, db))
      (sym h) (rw gone refl)

-- Once a message is recalled, every later snapshot of it, from whatever source and whatever it says,
-- ends as a tombstone and changes nothing: no row, no audit, no notice, no task.
pub recalled_stays_quiet :
    (e : Ingestion) (m : NormalizedMessage) (source : String) (db : TaskDb) (row : MessageRow)
    → find_message m.message_id db.store.messages ≡ some row
    → row.is_deleted ≡ true
    → process_message e m source db ≡ (finished (some (ignore_as "message_tombstone")), db)
unfolding process_message upsert_message_revision ingest_stored ingest_tombstone
recalled_stays_quiet e m source db row h gone =
    ap (λ (x : MessageUpsertResult × Db). after_upsert e m source x db)
      (recalled-unchanged m (e.semantic_hash m) false db.store _ row h gone)
    ∙ rw gone refl
