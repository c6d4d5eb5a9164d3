-- ===== src/HpFile/View.antt =====
-- What a reader of an HPFile will find once everything is flushed: the blocks, the buffer included.
use onvakv.Base.{
  ℕ, zero, suc, ◌+◌, ◌-◌, ◌≤◌, ◌≡◌, refl, sym, ap, true, false, Option, some, List, [], ◌∷◌, ◌++◌,
  append_assoc, append-nil, length, take, drop, ltb, ◌==◌, arith, take_all, take-append-drop,
  length-append, length-take, length-drop, Bool-cases, inl, inr,
}
use onvakv.Base.Result.{ok}
use onvakv.Types.{Bytes}
use onvakv.HpFile.Disk.{File, HpFile, write, put_file, write_latest, append_buf}

-- The last block is open for writing, at its end.
pub record IsOpen (h : HpFile) : Type 0 where
  pub latest : File
  pub at_latest : h.file_map h.largest_id ≡ some latest
  pub at_end : latest.offset ≡ length latest.content
  pub sized : h.latest_file_size ≡ length latest.content + length h.buffer
  pub room : length h.buffer ≤ h.buffer_size

drop_past {ℓ} : {A : Type ℓ} (xs : List A) (n : ℕ) → length xs ≤ n → drop n xs ≡ []
drop_past [] zero h = refl
drop_past [] (suc n) h = refl
drop_past (x ∷ xs) zero h = absurd (omega arith)
drop_past (x ∷ xs) (suc n) h = drop_past xs n (omega arith)

-- Writing at the end appends.
pub write_at_end :
    (f : File) (b : Bytes)
    → f.offset ≡ length f.content
    → write f b ≡ record { content = f.content ++ b; offset = length f.content + length b }
unfolding write
write_at_end f b e =
    let gap : f.offset - length f.content ≡ 0 = omega arith in
    rw (
      take_all f.content f.offset e,
      gap,
      drop_past f.content (f.offset + length b) (omega arith),
      append-nil b,
      e,
    )

-- The latest file after `b` was written to it.
abbrev pub longer : File → Bytes → File
longer f b = record { content = f.content ++ b; offset = length f.content + length b }

pub write_latest_at_end :
    (h : HpFile) (f : File) (b : Bytes)
    → h.file_map h.largest_id ≡ some f
    → f.offset ≡ length f.content
    → write_latest h b
      ≡ ok (record h { file_map = put_file h.file_map h.largest_id (some (longer f b)) })
unfolding write_latest
write_latest_at_end h f b e o =
    rw (e, write_latest)
      (ap (λ t. ok (record h { file_map = put_file h.file_map h.largest_id (some t) }))
        (write_at_end f b o))

pub put_file_self : (m : ℕ → Option File) (id : ℕ) (f : Option File) → put_file m id f id ≡ f
put_file_self m id f = ground arith

pub put_file_ne :
    (m : ℕ → Option File) (id j : ℕ) (f : Option File) → (j == id) ≡ false → put_file m id f j ≡ m j
put_file_ne m id j f e = rw e

-- A step that adds `b` at the end.
pub record Grown (h : HpFile) (v : IsOpen h) (b : Bytes) (h' : HpFile) : Type 0 where
  pub opened : IsOpen h'
  pub block_size : h'.block_size ≡ h.block_size
  pub buffer_size : h'.buffer_size ≡ h.buffer_size
  pub largest_id : h'.largest_id ≡ h.largest_id
  pub tail : opened.latest.content ++ h'.buffer ≡ (v.latest.content ++ h.buffer) ++ b
  pub others : (j : ℕ) → (j == h.largest_id) ≡ false → h'.file_map j ≡ h.file_map j

-- The buffer runs over: it is filled up and written, and the rest of `b` is the new buffer.
spill :
    (h : HpFile) (v : IsOpen h) (b : Bytes)
    → length b ≤ h.buffer_size
    → ltb h.buffer_size (length h.buffer + length b) ≡ true
    → (h' : HpFile) × (append_buf h b ≡ ok h') × Grown h v b h'
spill h v b fits full = (
  record h {
    latest_file_size = h.latest_file_size + length b;
    file_map = put_file h.file_map h.largest_id (some (longer v.latest filled));
    buffer = drop room b;
  },
  unfold append_buf in
      ground (
        arith,
        fits,
        full,
        write_latest_at_end (record h { latest_file_size = h.latest_file_size + length b }) v.latest
            filled v.at_latest v.at_end,
      ),
  record {
    opened = record {
      latest = longer v.latest filled;
      at_latest = put_file_self h.file_map h.largest_id (some (longer v.latest filled));
      at_end = sym (length-append v.latest.content filled);
      sized = omega (
        arith,
        v.sized,
        length-append v.latest.content filled,
        length-append h.buffer (take room b),
        length-take room b,
        length-drop room b,
      );
      room = omega (arith, length-drop room b, fits, v.room);
    };
    block_size = refl;
    buffer_size = refl;
    largest_id = refl;
    tail = simp (append_assoc, take-append-drop);
    others = λ j e. put_file_ne h.file_map h.largest_id j (some (longer v.latest filled)) e;
  },
)
  where
    room : ℕ
    room = length b - (length h.buffer + length b - h.buffer_size)

    filled : Bytes
    filled = h.buffer ++ take room b

pub append_buf-Grown :
    (h : HpFile) (v : IsOpen h) (b : Bytes)
    → length b ≤ h.buffer_size
    → (h' : HpFile) × (append_buf h b ≡ ok h') × Grown h v b h'
append_buf-Grown h v b fits = elim (Bool-cases (ltb h.buffer_size (length h.buffer + length b))) [
  | inr small ↦ (
    record h { latest_file_size = h.latest_file_size + length b; buffer = h.buffer ++ b },
    unfold append_buf in ground (arith, fits, small),
    record {
      opened = record {
        latest = v.latest;
        at_latest = v.at_latest;
        at_end = v.at_end;
        sized = omega (arith, v.sized, length-append h.buffer b);
        room = ground (arith, small, length-append h.buffer b);
      };
      block_size = refl;
      buffer_size = refl;
      largest_id = refl;
      tail = sym (append_assoc v.latest.content h.buffer b);
      others = λ j e. refl;
    },
  )
  | inl full ↦ spill h v b fits full
]
