-- ===== src/Store/PaneOps/Drain.antt =====
-- Draining the queue of pane operations.
use seat_mesh.Prelude.{
  ℕ, ◌+◌, ◌≤◌, ◌≡◌, refl, ap, ◌∙◌, sym, length, Bool, true, false, none, some, List, [], ◌∷◌, All,
  All-lookup, Memᴰ, count, find?, arith, Bool-cases, Option-cases, inl, inr, ◌⊎◌, find?-some,
  mem-cons_inv,
}
use seat_mesh.Prelude.Text.{Text, text_eq, text_eq_iff, text_eq_comm}
use seat_mesh.Prelude.Keyed.{IsDistinct, tally}
use seat_mesh.Store.Rows.{PaneOpRow, running}
use seat_mesh.Store.PaneOps.{
  pane_op_id, is_pending, is_op_open, update_pane_op, OpResult, succeeded, refused, finish, run_op,
  drain_pane_ops_once,
}

-- An update over a row of the list exchanges one row of those that pass a test.
count-update :
    (p : PaneOpRow → Bool) (row old : PaneOpRow) (rows : List PaneOpRow)
    → IsDistinct pane_op_id rows
    → Memᴰ old rows
    → old.id ≡ row.id
    → count p (update_pane_op rows row) + tally (p old) ≡ count p rows + tally (p row)
unfolding update_pane_op
count-update p row old [] d m e = elim m [ ]
count-update p row old (x ∷ xs) (h, d) (Memᴰ.head s) e =
    let same : text_eq x.id row.id ≡ true = (text_eq_iff _ _).1 (sym (ap pane_op_id s) ∙ e) in
    rw same (ground (arith, ap p s))
count-update p row old (x ∷ xs) (h, d) (Memᴰ.tail m) e =
    let apart : text_eq x.id row.id ≡ false =
      text_eq_comm x.id row.id ∙ (rw e at (All-lookup (λ y. text_eq y.id x.id ≡ false) xs h m)) in
    rw apart (ground (arith, count-update p row old xs d m e))

update-Away :
    (k : Text) (row : PaneOpRow) (rows : List PaneOpRow)
    → All (λ y. text_eq y.id k ≡ false) rows
    → All (λ y. text_eq y.id k ≡ false) (update_pane_op rows row)
unfolding update_pane_op
update-Away k row [] h = tt
update-Away k row (x ∷ xs) (h, hs) = elim (Bool-cases (text_eq x.id row.id)) [
  | inl t ↦ rw t (rw (sym ((text_eq_iff x.id row.id).0 t)) h, hs)
  | inr f ↦ rw f (h, update-Away k row xs hs)
]

update-IsDistinct :
    (row : PaneOpRow) (rows : List PaneOpRow)
    → IsDistinct pane_op_id rows
    → IsDistinct pane_op_id (update_pane_op rows row)
unfolding update_pane_op
update-IsDistinct row [] d = tt
update-IsDistinct row (x ∷ xs) (h, d) = elim (Bool-cases (text_eq x.id row.id)) [
  | inl t ↦ rw t (rw (sym ((text_eq_iff x.id row.id).0 t)) h, d)
  | inr f ↦ rw f (update-Away x.id row xs h, update-IsDistinct row xs d)
]

update-mem :
    (row old : PaneOpRow) (rows : List PaneOpRow)
    → Memᴰ old rows
    → old.id ≡ row.id
    → Memᴰ row (update_pane_op rows row)
unfolding update_pane_op
update-mem row old [] m e = elim m [ ]
update-mem row old (x ∷ xs) m e = elim (Bool-cases (text_eq x.id row.id)) [
  | inl t ↦ rw t (Memᴰ.head refl)
  | inr f ↦ elim (mem-cons_inv m) [
    | inl s ↦
        absurd (
          let g : text_eq x.id row.id ≡ true = (text_eq_iff _ _).1 (sym (ap pane_op_id s) ∙ e) in
          cc)
    | inr m' ↦ rw f (Memᴰ.tail (update-mem row old xs m' e))
  ]
]

finish-shut :
    (row : PaneOpRow) (result : OpResult) (now : ℕ)
    → ((finish row result now).id ≡ row.id)
      × (is_pending (finish row result now) ≡ false)
      × (is_op_open (finish row result now) ≡ false)
finish-shut row succeeded now = (refl, refl, refl)
finish-shut row (refused e) now = (refl, refl, refl)

pending-op_open : (row : PaneOpRow) → is_pending row ≡ true → is_op_open row ≡ true
pending-op_open row h = ground arith

-- One operation's run: it is no longer pending, and no longer open.
run_op-counts :
    (execute : PaneOpRow → OpResult) (rows : List PaneOpRow) (row : PaneOpRow) (now : ℕ)
    → IsDistinct pane_op_id rows
    → Memᴰ row rows
    → is_pending row ≡ true
    → (count is_pending (run_op execute rows row now) + 1 ≡ count is_pending rows)
      × (count is_op_open (run_op execute rows row now) + 1 ≡ count is_op_open rows)
      × IsDistinct pane_op_id (run_op execute rows row now)
unfolding run_op
run_op-counts execute rows row now d m waiting =
    let started : PaneOpRow = record row { status = running } in
    let ended = finish started (execute started) now in
    let (id, p, o) = finish-shut started (execute started) now in
    let rows' = update_pane_op rows started in
    let d' = update-IsDistinct started rows d in
    let m' = update-mem started row rows m refl in
    (
      omega (
        arith,
        count-update is_pending started row rows d m refl,
        count-update is_pending ended started rows' d' m' (sym id),
        ap tally waiting,
        ap tally p,
      ),
      omega (
        arith,
        count-update is_op_open started row rows d m refl,
        count-update is_op_open ended started rows' d' m' (sym id),
        ap tally (pending-op_open row waiting),
        ap tally o,
      ),
      update-IsDistinct ended rows' d',
    )

count-none : (rows : List PaneOpRow) → find? is_pending rows ≡ none → count is_pending rows ≡ 0
count-none [] e = refl
count-none (x ∷ xs) e = ground (arith, count-none xs)

module _ (execute : PaneOpRow → OpResult) where
  drain-idle :
      (rows : List PaneOpRow) (now : ℕ)
      → find? is_pending rows ≡ none
      → drain_pane_ops_once execute false rows now ≡ (rows, false)
  unfolding drain_pane_ops_once
  drain-idle rows now e = rw e refl

  drain-runs :
      (rows : List PaneOpRow) (now : ℕ) (row : PaneOpRow)
      → find? is_pending rows ≡ some row
      → drain_pane_ops_once execute false rows now ≡ (run_op execute rows row now, true)
  unfolding drain_pane_ops_once
  drain-runs rows now row e = rw e refl

  -- What one drain leaves.
  record Drained (rows rows' : List PaneOpRow) (ran : Bool) : Type 0 where
    distinct : IsDistinct pane_op_id rows'
    fewer : count is_pending rows' + tally ran ≡ count is_pending rows
    settled : count is_op_open rows' + tally ran ≡ count is_op_open rows
    idle : (ran ≡ true) ⊎ (count is_pending rows ≡ 0)

  drain-Drained :
      (rows : List PaneOpRow) (now : ℕ)
      → IsDistinct pane_op_id rows
      → Drained rows
          (drain_pane_ops_once execute false rows now).0
          (drain_pane_ops_once execute false rows now).1
  drain-Drained rows now d = elim (Option-cases (find? is_pending rows)) [
    | inl miss ↦ rw (drain-idle rows now miss) (record {
      distinct = d;
      fewer = omega arith;
      settled = omega arith;
      idle = inr (count-none rows miss);
    })
    | inr (row, hit) ↦
        let (m, waiting) = find?-some is_pending rows hit in
        let (p, o, d') = run_op-counts execute rows row now d m waiting in
        rw (drain-runs rows now row hit)
          (record { distinct = d'; fewer = p; settled = o; idle = inl refl })
  ]

  -- Drains one after the other, with nothing busy.
  abbrev pub drain_run : List ℕ → List PaneOpRow → List PaneOpRow
  drain_run [] rows = rows
  drain_run (now ∷ later) rows = drain_run later (drain_pane_ops_once execute false rows now).0

-- A queue with distinct ids is worked off: after as many drains as there are pending operations, or
-- more, none is pending, whatever the operations return, and of the open operations those that
-- were pending are gone: none is left running by a drain.
pub drains_empty_queue :
    (execute : PaneOpRow → OpResult) (times : List ℕ) (rows : List PaneOpRow)
    → IsDistinct pane_op_id rows
    → count is_pending rows ≤ length times
    → (count is_pending (drain_run execute times rows) ≡ 0)
      × (count is_op_open (drain_run execute times rows) + count is_pending rows
          ≡ count is_op_open rows)
drains_empty_queue execute [] rows d few = (omega arith, omega arith)
drains_empty_queue execute (now ∷ later) rows d few =
    let one = drain-Drained execute rows now d in
    let rows' = (drain_pane_ops_once execute false rows now).0 in
    let bound : count is_pending rows' ≤ length later = elim one.idle [
      | inl ran ↦ omega (arith, one.fewer, ap tally ran, few)
      | inr none_ ↦ omega (arith, one.fewer, none_)
    ] in
    let (a, b) = drains_empty_queue execute later rows' one.distinct bound in
    (a, omega (arith, b, one.fewer, one.settled))
