-- ===== src/Database/Cbor/RoundTrip.antt =====
-- src/database/DatabaseUtil.cpp: what `cborEncode` writes, `cborDecode` reads back.
use mathlib.Core.List.{append_assoc, append-nil}
use iotic.Prelude.{
  ℕ, zero, suc, ◌+◌, ◌%◌, ◌<◌, ◌≡◌, refl, sym, ap, ◌∙◌, to_u32, ℤ, pos, is_int, true, u32_mod, some,
  List, [], ◌∷◌, ◌++◌, length, arith, All,
}
use iotic.Database.Types.{DeltaDataset, u16_mod, HasWidth}
use iotic.Database.Cbor.Columns.{
  times, col, cols, column_items, write_columns_total, col_small, rows-cols,
}
use iotic.Database.Cbor.{
  Item, array, initial, timestamp, value, Listener, signed, to_u16, write_timestamps, write_values,
  cbor_encode, push_last, on_integer, on_array, run, rows, cbor_decode,
}

to_u16-signed : (v : ℕ) → v < u16_mod → to_u16 (signed v) ≡ v
unfolding to_u16 signed
to_u16-signed v h = ground arith

-- The times that an `int` can hold.
abbrev pub Times : DeltaDataset → Type 0
Times = All (λ e. e.0 < 2147483648)

is_int-signed : (v : ℕ) → v < u16_mod → is_int (signed v) ≡ true
unfolding signed
is_int-signed v h = ground arith

run_integer :
    (x : ℤ) (items : List Item) (l : Listener)
    → is_int x ≡ true
    → run (Item.integer x ∷ items) l ≡ run items (on_integer x l.state l)
unfolding run
run_integer x items l h = rw h refl

run_timestamps :
    (d : DeltaDataset) (rest : List Item) (ts : List ℕ) (vs : List (List ℕ))
    → Times d
    → run (write_timestamps d rest) (record { state = timestamp; timestamps = ts; values = vs })
      ≡ run rest (record { state = timestamp; timestamps = ts ++ times d; values = vs })
unfolding run write_timestamps on_integer to_u32
run_timestamps [] rest ts vs h = rw append-nil
run_timestamps ((t, p) ∷ d) rest ts vs h =
    let fits : t % u32_mod ≡ t = omega (arith, h.0) in
    let after : ℕ → Listener =
      λ x. record { state = timestamp; timestamps = ts ++ x ∷ []; values = vs } in
    let joined : List ℕ → Listener =
      λ us. record { state = timestamp; timestamps = us; values = vs } in
    run_integer (pos t) (write_timestamps d rest)
      (record { state = timestamp; timestamps = ts; values = vs }) (ground (arith, h.0))
    ∙ ap (λ x. run (write_timestamps d rest) (after x)) fits
    ∙ run_timestamps d rest (ts ++ t ∷ []) vs h.1
    ∙ ap (λ us. run rest (joined us)) (append_assoc ts (t ∷ []) (times d))

push_last-append :
    (v : ℕ) (cs : List (List ℕ)) (c : List ℕ)
    → push_last v (cs ++ c ∷ []) ≡ cs ++ (c ++ v ∷ []) ∷ []
unfolding push_last
push_last-append v [] c = refl
push_last-append v (a ∷ []) c = refl
push_last-append v (a ∷ b ∷ cs) c = ap (◌∷◌ a) (push_last-append v (b ∷ cs) c)

run_values :
    (vs : List ℕ) (rest : List Item) (ts : List ℕ) (cs : List (List ℕ)) (c : List ℕ)
    → All (λ v. v < u16_mod) vs
    → run (write_values vs rest) (record { state = value; timestamps = ts; values = cs ++ c ∷ [] })
      ≡ run rest (record { state = value; timestamps = ts; values = cs ++ (c ++ vs) ∷ [] })
unfolding run write_values on_integer
run_values [] rest ts cs c h = rw append-nil
run_values (v ∷ vs) rest ts cs c h =
    let after : List (List ℕ) → Listener =
      λ us. record { state = value; timestamps = ts; values = us } in
    run_integer (signed v) (write_values vs rest)
      (record { state = value; timestamps = ts; values = cs ++ c ∷ [] }) (is_int-signed v h.0)
    ∙ ap (λ us. run (write_values vs rest) (after us))
        (push_last-append (to_u16 (signed v)) cs c
          ∙ ap (λ x. cs ++ (c ++ x ∷ []) ∷ []) (to_u16-signed v h.0))
    ∙ run_values vs rest ts cs (c ++ v ∷ []) h.1
    ∙ ap (λ us. run rest (after (cs ++ us ∷ []))) (append_assoc c (v ∷ []) vs)

run_columns :
    (width left i : ℕ) (d : DeltaDataset) (ts : List ℕ) (cs : List (List ℕ))
    → HasWidth width d
    → run (column_items left i d) (record { state = value; timestamps = ts; values = cs })
      ≡ some (record { state = value; timestamps = ts; values = cs ++ cols left i d })
unfolding run column_items cols on_array
run_columns width zero i d ts cs w =
    let after : List (List ℕ) → Listener =
      λ us. record { state = value; timestamps = ts; values = us } in
    ap (λ us. some (after us)) (sym (append-nil cs))
run_columns width (suc left) i d ts cs w =
    let after : List (List ℕ) → Listener =
      λ us. record { state = value; timestamps = ts; values = us } in
    run_values (col i d) (column_items left (i + 1) d) ts cs [] (col_small width i d w)
    ∙ run_columns width left (i + 1) d ts (cs ++ col i d ∷ []) w
    ∙ ap (λ us. some (after us)) (append_assoc cs (col i d ∷ []) (cols left (i + 1) d))

-- The timestamps and the columns that the listener has at the end.
run_all :
    (width : ℕ) (d : DeltaDataset) (n : ℕ)
    → HasWidth width d
    → Times d
    → (l : Listener) × (run
          (array n ∷ write_timestamps d (column_items width 0 d))
          (record { state = initial; timestamps = []; values = [] })
        ≡ some l)
      × (l.timestamps ≡ times d)
      × (l.values ≡ cols width 0 d)
unfolding run on_array column_items cols
run_all zero d n w h = let e = run_timestamps d [] [] [] h in (_, e, refl, refl)
run_all (suc width) d n w h =
    let rest = column_items width 1 d in
    let c = col_small (suc width) 0 d w in
    let e =
      run_timestamps d (array (length d) ∷ write_values (col 0 d) rest) [] [] h
      ∙ run_values (col 0 d) rest (times d) [] [] c
      ∙ run_columns (suc width) width 1 d (times d) (col 0 d ∷ []) w in
    (_, e, refl, refl)

-- Entries of one width, with values of 16 bits and times below 2 ^ 31, are written without a fault and
-- come back as they were.
pub cbor_decode-encode :
    (width : ℕ) (d : DeltaDataset)
    → HasWidth width d
    → Times d
    → (items : List Item) × (cbor_encode d ≡ some items) × (cbor_decode items ≡ some d)
unfolding cbor_encode cbor_decode
cbor_decode-encode width [] w h = ([], refl, unfold run rows in refl)
cbor_decode-encode width ((t, p) ∷ d) w h =
    let entries : DeltaDataset = (t, p) ∷ d in
    let items = array (length entries) ∷ write_timestamps entries (column_items width 0 entries) in
    let (l, e, ts, cs) = run_all width entries (length entries) w h in
    (
      items,
      rw (w.0.0, write_columns_total width width 0 entries (omega arith) w) refl,
      rw e (rw (ts, cs) (rows-cols width [] entries w)),
    )
