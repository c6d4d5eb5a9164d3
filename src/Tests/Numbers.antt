-- ===== src/Tests/Numbers.antt =====
-- The numbers of metadb/metadb.go on a small database.
use onvakv.Base.{◌≡◌, refl, Option, none, some, if◌then◌else◌, arith}
use onvakv.Base.Int.{pos, negsuc}
use onvakv.ByteSlices.{bytes_eq}
use onvakv.Types.{Bytes}
use onvakv.MetaDb.Fields.{
  KvDb, MetaDb, reload_from_kvdb, commit, incr_max_serial_num, get_twig_height,
}
use onvakv.MetaDb.Reload.{
  IsMetaDb, with_batch_closed, reload_from_kvdb-commit, incr_max_serial_num-get_twig_height,
}

abbrev put : (Bytes → Option Bytes) → Bytes → Bytes → Bytes → Option Bytes
put m k v j = if bytes_eq k j then some v else m j

-- What is stored, and what will be once the batch is closed.
abbrev pair_db : KvDb
pair_db = record {
  Db = (Bytes → Option Bytes) × (Bytes → Option Bytes);
  get = λ d k. d.0 k;
  set = λ d k v. (put d.0 k v, put d.1 k v);
  delete =
      λ d k. (λ j. if bytes_eq k j then none else d.0 j, λ j. if bytes_eq k j then none else d.1 j);
  batch_set = λ d k v. (d.0, put d.1 k v);
  close_batch = λ d. (d.1, d.1);
  get-batch_set = λ d k v j. refl;
  get-close_batch = λ d k v j. refl;
}

abbrev small_db : MetaDb pair_db
small_db = record {
  kvdb = (λ j. none, λ j. none);
  curr_height = pos 12;
  last_pruned_twig = negsuc 0;
  max_serial_num = pos 4095;
  oldest_active_twig_id = pos 1;
}

small_db-IsMetaDb : IsMetaDb pair_db small_db
small_db-IsMetaDb = record {
  height_fits = omega arith;
  pruned_fits = omega arith;
  serial_fits = omega arith;
  oldest_fits = omega arith;
}

reload_small :
    reload_from_kvdb pair_db
      (record small_db { kvdb = pair_db.close_batch (commit pair_db small_db).kvdb })
    ≡ some (record small_db { kvdb = pair_db.close_batch (commit pair_db small_db).kvdb })
reload_small = reload_from_kvdb-commit pair_db small_db small_db small_db-IsMetaDb

incr_small :
    ((incr_max_serial_num pair_db small_db).max_serial_num ≡ pos 4096)
    × (get_twig_height pair_db
          (with_batch_closed pair_db (incr_max_serial_num pair_db small_db))
          (pos 2)
        ≡ some (pos 12))
incr_small =
    incr_max_serial_num-get_twig_height pair_db small_db 4095 2 refl (omega arith) (omega arith)
      (omega arith)
