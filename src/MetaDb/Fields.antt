-- ===== src/MetaDb/Fields.antt =====
-- MetaDBWithTMDB of metadb/metadb.go over the key-value store of indextree/rocks_db.go, which wraps a
-- third-party database and is a parameter.
use onvakv.Base.{
  ℕ, ◌+◌, ◌/◌, ◌%◌, ◌^◌, ◌-◌, ◌≡◌, Bool, true, false, Option, none, some, [], ◌∷◌, length, take,
  ltb, ◌==◌, if◌then◌else◌, ◌>>=◌,
}
use onvakv.Base.Int.{ℤ, pos, negsuc, to_u64, from_u64}
use onvakv.Base.Words.{put_le, get_le}
use onvakv.ByteSlices.{bytes_eq}
use onvakv.Types.{Bytes}

-- Reads see what was written; what is set in the current batch is seen once the batch is closed.
pub record KvDb : Type 1 where
  pub Db : Type 0
  pub get : Db → Bytes → Option Bytes
  pub set : Db → Bytes → Bytes → Db
  pub delete : Db → Bytes → Db
  pub batch_set : Db → Bytes → Bytes → Db
  pub close_batch : Db → Db
  pub get-batch_set : (d : Db) (k v j : Bytes) → get (batch_set d k v) j ≡ get d j
  pub get-close_batch :
      (d : Db) (k v j : Bytes)
      → get (close_batch (batch_set d k v)) j
        ≡ (if bytes_eq k j then some v else get (close_batch d) j)

abbrev pub leaf_count_in_twig : ℕ
leaf_count_in_twig = 2048

abbrev pub byte_curr_height : ℕ
byte_curr_height = 0x10

abbrev pub byte_twig_mt_file_size : ℕ
byte_twig_mt_file_size = 0x11

abbrev pub byte_entry_file_size : ℕ
byte_entry_file_size = 0x12

abbrev pub byte_twig_height : ℕ
byte_twig_height = 0x13

abbrev pub byte_last_pruned_twig : ℕ
byte_last_pruned_twig = 0x14

abbrev pub byte_edge_nodes : ℕ
byte_edge_nodes = 0x15

abbrev pub byte_max_serial_num : ℕ
byte_max_serial_num = 0x16

abbrev pub byte_oldest_active_twig_id : ℕ
byte_oldest_active_twig_id = 0x18

abbrev pub byte_is_running : ℕ
byte_is_running = 0x19

-- binary.LittleEndian.PutUint64 and Uint64 of an int64; fewer than eight bytes panic.
unfoldable pub put_i64 : ℤ → Bytes
put_i64 x = put_le 8 (to_u64 x)

unfoldable pub get_i64 : Bytes → Option ℤ
get_i64 b = if ltb (length b) 8 then none else some (from_u64 (get_le (take 8 b)))

-- `x++` on an int64, and `x % 2048 == 0` and `x / 2048`, which go towards zero.
unfoldable pub increment : ℤ → ℤ
increment (pos n) = if n == 2 ^ 63 - 1 then negsuc (2 ^ 63 - 1) else pos (n + 1)
increment (negsuc n) = if n == 0 then pos 0 else negsuc (n - 1)

unfoldable pub begins_twig : ℤ → Bool
begins_twig (pos n) = n % leaf_count_in_twig == 0
begins_twig (negsuc n) = (n + 1) % leaf_count_in_twig == 0

unfoldable pub twig_of : ℤ → ℤ
twig_of (pos n) = pos (n / leaf_count_in_twig)
twig_of (negsuc n) =
    let q = (n + 1) / leaf_count_in_twig in if q == 0 then pos 0 else negsuc (q - 1)

module _ (K : KvDb) where
  pub record MetaDb : Type 0 where
    pub kvdb : K.Db
    pub curr_height : ℤ
    pub last_pruned_twig : ℤ
    pub max_serial_num : ℤ
    pub oldest_active_twig_id : ℤ

  abbrev pub batch_set : MetaDb → Bytes → Bytes → MetaDb
  batch_set db k v = record db { kvdb = K.batch_set db.kvdb k v }

  -- A number under a key of one byte; a missing one is 0.
  unfoldable pub read_field : K.Db → ℕ → Option ℤ
  read_field d byte = elim (K.get d (byte ∷ [])) [ none ↦ some (pos 0) | some bz ↦ get_i64 bz ]

  unfoldable pub reload_from_kvdb : MetaDb → Option MetaDb
  reload_from_kvdb db = do
    height ← read_field db.kvdb byte_curr_height
    pruned ← read_field db.kvdb byte_last_pruned_twig
    serial ← read_field db.kvdb byte_max_serial_num
    oldest ← read_field db.kvdb byte_oldest_active_twig_id
    some (record {
      kvdb = db.kvdb;
      curr_height = height;
      last_pruned_twig = pruned;
      max_serial_num = serial;
      oldest_active_twig_id = oldest;
    })

  unfoldable pub commit : MetaDb → MetaDb
  commit db =
      let d₁ = K.batch_set db.kvdb (byte_curr_height ∷ []) (put_i64 db.curr_height) in
      let d₂ = K.batch_set d₁ (byte_last_pruned_twig ∷ []) (put_i64 db.last_pruned_twig) in
      let d₃ = K.batch_set d₂ (byte_max_serial_num ∷ []) (put_i64 db.max_serial_num) in
      record db {
        kvdb = K.batch_set d₃ (byte_oldest_active_twig_id ∷ []) (put_i64 db.oldest_active_twig_id);
      }

  unfoldable pub set_curr_height : MetaDb → ℤ → MetaDb
  set_curr_height db h = record db { curr_height = h }

  unfoldable pub set_twig_mt_file_size : MetaDb → ℤ → MetaDb
  set_twig_mt_file_size db size = batch_set db (byte_twig_mt_file_size ∷ []) (put_i64 size)

  unfoldable pub get_twig_mt_file_size : MetaDb → Option ℤ
  get_twig_mt_file_size db = read_field db.kvdb byte_twig_mt_file_size

  unfoldable pub set_entry_file_size : MetaDb → ℤ → MetaDb
  set_entry_file_size db size = batch_set db (byte_entry_file_size ∷ []) (put_i64 size)

  unfoldable pub get_entry_file_size : MetaDb → Option ℤ
  get_entry_file_size db = read_field db.kvdb byte_entry_file_size

  unfoldable pub set_twig_height : MetaDb → ℤ → ℤ → MetaDb
  set_twig_height db id height = batch_set db (byte_twig_height ∷ put_i64 id) (put_i64 height)

  -- A missing or empty value is -1.
  unfoldable pub get_twig_height : MetaDb → ℤ → Option ℤ
  get_twig_height db id = elim (K.get db.kvdb (byte_twig_height ∷ put_i64 id)) [
    | none ↦ some (negsuc 0)
    | some [] ↦ some (negsuc 0)
    | some (b ∷ bz) ↦ get_i64 (b ∷ bz)
  ]

  unfoldable pub delete_twig_height : MetaDb → ℤ → MetaDb
  delete_twig_height db id = record db { kvdb = K.delete db.kvdb (byte_twig_height ∷ put_i64 id) }

  unfoldable pub set_last_pruned_twig : MetaDb → ℤ → MetaDb
  set_last_pruned_twig db id = record db { last_pruned_twig = id }

  unfoldable pub get_edge_nodes : MetaDb → Option Bytes
  get_edge_nodes db = K.get db.kvdb (byte_edge_nodes ∷ [])

  unfoldable pub set_edge_nodes : MetaDb → Bytes → MetaDb
  set_edge_nodes db bz = record db { kvdb = K.set db.kvdb (byte_edge_nodes ∷ []) bz }

  unfoldable pub incr_max_serial_num : MetaDb → MetaDb
  incr_max_serial_num db =
      let n = increment db.max_serial_num in
      let db' = record db { max_serial_num = n } in
      if begins_twig n then set_twig_height db' (twig_of n) db.curr_height else db'

  unfoldable pub incr_oldest_active_twig_id : MetaDb → MetaDb
  incr_oldest_active_twig_id db = record db {
    oldest_active_twig_id = increment db.oldest_active_twig_id;
  }

  -- GetIsRunning: anything but a first byte of zero.
  unfoldable pub get_is_running : MetaDb → Bool
  get_is_running db = elim (K.get db.kvdb (byte_is_running ∷ [])) [
    | none ↦ true
    | some [] ↦ true
    | some (b ∷ bz) ↦ if b == 0 then false else true
  ]

  unfoldable pub set_is_running : MetaDb → Bool → MetaDb
  set_is_running db is_running = record db {
    kvdb = K.set db.kvdb (byte_is_running ∷ []) ((if is_running then 1 else 0) ∷ []);
  }

  unfoldable pub init : MetaDb → MetaDb
  init db =
      let db₁ = set_is_running db false in
      let db₂ : MetaDb = record db₁ {
        curr_height = pos 0;
        last_pruned_twig = negsuc 0;
        max_serial_num = pos 0;
        oldest_active_twig_id = pos 0;
      } in
      commit (set_entry_file_size (set_twig_mt_file_size db₂ (pos 0)) (pos 0))
