-- ===== src/MetaDb/Reload.antt =====
-- What Commit writes, ReloadFromKVDB reads.
use onvakv.Base.{
  ℕ, ◌+◌, ◌-◌, ◌*◌, ◌/◌, ◌%◌, ◌^◌, ◌<◌, ◌≡◌, refl, sym, ap, ◌∙◌, true, false, some, some-injective,
  [], ◌∷◌, take_all, ◌==◌, if◌then◌else◌, arith, Bool-cases, inl, inr,
}
use onvakv.Base.Int.{ℤ, pos, negsuc, IsI64, to_u64, from_u64-to_u64, to_u64-lt}
use onvakv.Base.Words.{put_le, length-put_le, get_le-put_le_64}
use onvakv.ByteSlices.{bytes_eq, bytes_eq_refl, bytes_eq_sound}
use onvakv.Types.{Bytes}
use onvakv.MetaDb.Fields.{
  KvDb, MetaDb, put_i64, get_i64, begins_twig, twig_of, increment, read_field, reload_from_kvdb,
  commit, incr_max_serial_num, set_twig_height, get_twig_height,
}

get_i64-put_i64 : (x : ℤ) → IsI64 x → get_i64 (put_i64 x) ≡ some x
unfolding get_i64 put_i64
get_i64-put_i64 x h =
    rw
      (
        length-put_le 8 (to_u64 x),
        take_all (put_le 8 (to_u64 x)) 8 (sym (length-put_le 8 (to_u64 x))),
        get_le-put_le_64 (to_u64 x) (to_u64-lt x),
        from_u64-to_u64 x h,
      )
      refl

put_i64-cons : (x : ℤ) → (b : ℕ) × (bz : Bytes) × (put_i64 x ≡ b ∷ bz)
unfolding put_i64 put_le
put_i64-cons x = (_, _, refl)

-- Numbers of eight bytes each.
pub record IsMetaDb (K : KvDb) (db : MetaDb K) : Type 0 where
  pub height_fits : IsI64 db.curr_height
  pub pruned_fits : IsI64 db.last_pruned_twig
  pub serial_fits : IsI64 db.max_serial_num
  pub oldest_fits : IsI64 db.oldest_active_twig_id

module _ (K : KvDb) where
  read_field-found :
      (d : K.Db) (byte : ℕ) (x : ℤ)
      → IsI64 x
      → K.get d (byte ∷ []) ≡ some (put_i64 x)
      → read_field K d byte ≡ some x
  unfolding read_field
  read_field-found d byte x h e = rw (e, read_field) (get_i64-put_i64 x h)

  module _ (db : MetaDb K) where
    closed : K.Db
    closed = K.close_batch (commit K db).kvdb

    get-closed :
        (j : Bytes)
        → K.get closed j ≡ (
            if bytes_eq (0x18 ∷ []) j
            then some (put_i64 db.oldest_active_twig_id)
            else if bytes_eq (0x16 ∷ []) j
            then some (put_i64 db.max_serial_num)
            else if bytes_eq (0x14 ∷ []) j
            then some (put_i64 db.last_pruned_twig)
            else if bytes_eq (0x10 ∷ []) j
            then some (put_i64 db.curr_height)
            else K.get (K.close_batch db.kvdb) j)
    unfolding closed commit
    get-closed j = simp (K.get-close_batch)

    -- Once the batch that Commit writes to is closed, ReloadFromKVDB on the database gives the four
    -- numbers back, whatever stood in the fields.
    pub reload_from_kvdb-commit :
        (other : MetaDb K)
        → IsMetaDb K db
        → reload_from_kvdb K (record other { kvdb = K.close_batch (commit K db).kvdb })
          ≡ some (record db { kvdb = K.close_batch (commit K db).kvdb })
    unfolding reload_from_kvdb closed bytes_eq
    reload_from_kvdb-commit other v =
        rw
          (
            read_field-found closed 0x10 db.curr_height v.height_fits (get-closed (0x10 ∷ [])),
            read_field-found closed 0x14 db.last_pruned_twig v.pruned_fits (get-closed (0x14 ∷ [])),
            read_field-found closed 0x16 db.max_serial_num v.serial_fits (get-closed (0x16 ∷ [])),
            read_field-found closed 0x18 db.oldest_active_twig_id v.oldest_fits
                (get-closed (0x18 ∷ [])),
          )
          refl

  -- The database once the batch of `db` is closed.
  abbrev pub with_batch_closed : MetaDb K → MetaDb K
  with_batch_closed db = record db { kvdb = K.close_batch db.kvdb }

  get_twig_height-found :
      (db : MetaDb K) (id x : ℤ)
      → IsI64 x
      → K.get db.kvdb (0x13 ∷ put_i64 id) ≡ some (put_i64 x)
      → get_twig_height K db id ≡ some x
  unfolding get_twig_height
  get_twig_height-found db id x h e =
      let (b, bz, cons) = put_i64-cons x in
      rw (e ∙ ap some cons, get_twig_height) (ap get_i64 (sym cons) ∙ get_i64-put_i64 x h)

  get_twig_height_same :
      (db db' : MetaDb K) (id : ℤ)
      → K.get db'.kvdb (0x13 ∷ put_i64 id) ≡ K.get db.kvdb (0x13 ∷ put_i64 id)
      → get_twig_height K db' id ≡ get_twig_height K db id
  unfolding get_twig_height
  get_twig_height_same db db' id e = rw (e, get_twig_height) refl

  increment_next :
      (db : MetaDb K) (n : ℕ)
      → db.max_serial_num ≡ pos n
      → n + 1 < 2 ^ 63
      → incr_max_serial_num K db ≡ (
          if (n + 1) % 2048 == 0
          then set_twig_height K
              (record db { max_serial_num = pos (n + 1) })
              (pos ((n + 1) / 2048))
              db.curr_height
          else record db { max_serial_num = pos (n + 1) })
  unfolding incr_max_serial_num begins_twig twig_of increment
  increment_next db n e fits =
      let next : (n == 2 ^ 63 - 1) ≡ false = ground (arith, fits) in rw (e, next) refl

  number : ℤ → ℕ
  number (pos n) = n
  number (negsuc n) = 0

  same_twig :
      (a t : ℕ) → a < 2 ^ 63 → t < 2 ^ 63 → bytes_eq (put_i64 (pos a)) (put_i64 (pos t)) ≡ (a == t)
  unfolding number
  same_twig a t ha ht = elim (Bool-cases (bytes_eq (put_i64 (pos a)) (put_i64 (pos t)))) [
    | inl e ↦
        let both =
          sym (get_i64-put_i64 (pos a) ha)
          ∙ ap get_i64 (bytes_eq_sound (put_i64 (pos a)) (put_i64 (pos t)) e)
          ∙ get_i64-put_i64 (pos t) ht in
        let same : a ≡ t = ap number (some-injective (pos a) (pos t) both) in
        e ∙ ground (arith, same)
    | inr e ↦ elim (Bool-cases (a == t)) [
      | inr d ↦ e ∙ sym d
      | inl d ↦
          let same : a ≡ t = ground (arith, d) in
          absurd (
            cc (
              e,
              ap (λ i. bytes_eq (put_i64 (pos a)) (put_i64 (pos i))) same,
              bytes_eq_refl (put_i64 (pos a)),
            ))
    ]
  ]

  -- IncrMaxSerialNum counts by one, and once the batch is closed, the height of the twig that begins
  -- at the new serial number, if one does, is the current height; that of any other twig is as it was.
  pub incr_max_serial_num-get_twig_height :
      (db : MetaDb K) (n t : ℕ)
      → db.max_serial_num ≡ pos n
      → n + 1 < 2 ^ 63
      → t < 2 ^ 63
      → IsI64 db.curr_height
      → ((incr_max_serial_num K db).max_serial_num ≡ pos (n + 1))
        × (get_twig_height K (with_batch_closed (incr_max_serial_num K db)) (pos t) ≡ (
            if n + 1 == 2048 * t
            then some db.curr_height
            else get_twig_height K (with_batch_closed db) (pos t)))
  unfolding set_twig_height bytes_eq
  incr_max_serial_num-get_twig_height db n t e fits small h =
      let twig = (n + 1) / 2048 in
      let next = increment_next db n e fits in
      elim (Bool-cases ((n + 1) % 2048 == 0)) [
        | inr old ↦
            let differ : (n + 1 == 2048 * t) ≡ false = ground (arith, old) in
            (
              rw (next, old) refl,
              rw differ (
                  get_twig_height_same (with_batch_closed db)
                    (with_batch_closed (incr_max_serial_num K db)) (pos t) (rw (next, old) refl)),
            )
        | inl new ↦
            let same = same_twig twig t (omega (arith, fits)) small in
            elim (Bool-cases (twig == t)) [
              | inl here ↦
                  let begins : (n + 1 == 2048 * t) ≡ true = ground (arith, new, here) in
                  (
                    rw (next, new) refl,
                    rw begins (
                        get_twig_height-found (with_batch_closed (incr_max_serial_num K db)) (pos t)
                          db.curr_height h
                          (rw (next, new, K.get-close_batch db.kvdb, same, here) refl)),
                  )
              | inr other ↦
                  let differ : (n + 1 == 2048 * t) ≡ false = ground (arith, other) in
                  (
                    rw (next, new) refl,
                    rw differ (
                        get_twig_height_same (with_batch_closed db)
                          (with_batch_closed (incr_max_serial_num K db)) (pos t)
                          (rw (next, new, K.get-close_batch db.kvdb, same, other) refl)),
                  )
            ]
      ]
