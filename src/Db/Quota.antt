-- ===== src/Db/Quota.antt =====
-- The usage counts under `Pool::consume_usage` of backend/src/db.rs.
use tldr_tv.Prelude.{
  ◌and_then◌, ℕ, ◌≡◌, refl, sym, true, false, Option, none, some, List, [], ◌∷◌, arith,
  if◌then◌else◌, Bool-cases, inl, inr, All, list_eq, nat_eq, nat_beq,
}
use tldr_tv.Prelude.Text.{Text}
use tldr_tv.Prelude.Int.{ℤ, pos, negsuc, int_ltb, ◌+ℤ◌}
use tldr_tv.Prelude.Exec.{Outcome, ok, err, pure, ◌>>=◌, bind_ok, ok_inj, Outcome-cases}
use tldr_tv.Db.{Db, Tables, DbError, DbExec, UserRow, by_id}
use tldr_tv.Db.Statements.{
  used, update_rows, update_users, changes, below_limit, add_usage, clause, first_row,
}
use tldr_tv.Db.Pool.{consume_usage, run_update, select_usage_count}
use tldr_tv.Db.Laws.{statement_ok, transaction_ok, transaction_atomic}

-- The user's count is at most the limit.
abbrev pub Within : ℤ → UserRow → Type 0
Within limit row = int_ltb limit (used row) ≡ false

int_step : (u limit : ℤ) → int_ltb u limit ≡ true → int_ltb limit (u +ℤ pos 1) ≡ false
int_step (pos u) (pos l) h = ground arith
int_step (pos u) (negsuc l) h = ground arith
int_step (negsuc u) (pos l) h = ground arith
int_step (negsuc u) (negsuc l) h = ground arith

below_limit_step :
    (id : Text) (limit : ℤ) (row : UserRow)
    → Within limit row
    → Within limit (if below_limit id limit row then add_usage (pos 1) row else row)
below_limit_step id limit row h = elim (Bool-cases (below_limit id limit row)) [
  | inl below ↦ rw below (int_step (used row) limit (ground arith))
  | inr full ↦ rw full h
]

update_rows-Within :
    (id : Text) (limit : ℤ) (rows : List UserRow)
    → All (Within limit) rows
    → All (Within limit) (update_rows (below_limit id limit) (add_usage (pos 1)) rows)
update_rows-Within id limit [] h = h
update_rows-Within id limit (row ∷ rows) (h, hs) =
    (below_limit_step id limit row h, update_rows-Within id limit rows hs)

-- The tables keep the limit.
abbrev pub Limited : ℤ → Tables → Type 0
Limited limit t = All (Within limit) t.users

first_row-Within :
    (id : Text) (limit : ℤ) (rows : List UserRow) (v : ℤ)
    → All (Within limit) rows
    → (first_row (clause (by_id id)) rows and_then λ r. r.usage_count) ≡ some v
    → int_ltb limit v ≡ false
first_row-Within id limit [] v h q = cc
first_row-Within id limit (row ∷ rows) v (h, hs) q = elim (Bool-cases (clause (by_id id) row)) [
  | inl here ↦ let count : row.usage_count ≡ some v = rw here at q in rw count at h
  | inr other ↦ first_row-Within id limit rows v hs (rw other at q)
]

run_update-Limited :
    (id : Text) (limit : ℤ) (db : Db) (n : ℕ)
    → Limited limit db.tables
    → (run_update (below_limit id limit) (add_usage (pos 1)) db).0 ≡ ok n
    → Limited limit (run_update (below_limit id limit) (add_usage (pos 1)) db).1.tables
unfolding run_update
run_update-Limited id limit db n h q =
    let (_, left) =
      statement_ok
        (λ (t : Tables). (
          ok (changes (below_limit id limit) t.users),
          update_users (below_limit id limit) (add_usage (pos 1)) t,
        ))
        db n q in
    rw left (update_rows-Within id limit db.tables.users h)

-- An answered count is at most the limit.
abbrev pub AnswerWithin : ℤ → Option ℤ → Type 0
AnswerWithin limit none = Unit
AnswerWithin limit (some v) = int_ltb limit v ≡ false

abbrev select_if_changed : Text → ℕ → DbExec (Option ℤ)
unfolding select_usage_count
select_if_changed id changed = if nat_beq changed 0 then pure none else select_usage_count id

abbrev consuming : Text → ℤ → DbExec (Option ℤ)
unfolding run_update select_if_changed
consuming id limit = run_update (below_limit id limit) (add_usage (pos 1)) >>= select_if_changed id

answer_Within :
    (id : Text) (limit : ℤ) (rows : List UserRow) (v : Option ℤ)
    → All (Within limit) rows
    → (first_row (clause (by_id id)) rows and_then λ r. r.usage_count) ≡ v
    → AnswerWithin limit v
answer_Within id limit rows none h q = tt
answer_Within id limit rows (some v) h q = first_row-Within id limit rows v h q

select_Limited :
    (id : Text) (limit : ℤ) (changed : ℕ) (db : Db) (v : Option ℤ)
    → Limited limit db.tables
    → (select_if_changed id changed db).0 ≡ ok v
    → Limited limit (select_if_changed id changed db).1.tables × AnswerWithin limit v
unfolding select_if_changed select_usage_count
select_Limited id limit changed db v h q = elim (Bool-cases (nat_beq changed 0)) [
  | inl nothing ↦
      let nil : none ≡ v = ok_inj (ok none) none v refl (rw nothing at q) in
      rw (nothing, sym nil) (h, tt)
  | inr some_row ↦
      let (answer, left) =
        statement_ok
          (λ (t : Tables).
            (ok (first_row (clause (by_id id)) t.users and_then λ r. r.usage_count), t))
          db v (rw some_row at q) in
      rw (some_row, left) (h, answer_Within id limit db.tables.users v h (ok_inj _ _ v refl answer))
]

consuming-Limited :
    (id : Text) (limit : ℤ) (db : Db) (v : Option ℤ)
    → Limited limit db.tables
    → (consuming id limit db).0 ≡ ok v
    → Limited limit (consuming id limit db).1.tables × AnswerWithin limit v
unfolding consuming
consuming-Limited id limit db v h q =
    let m = run_update (below_limit id limit) (add_usage (pos 1)) in
    let (n, first, split) = bind_ok m (select_if_changed id) db v q in
    rw split (
      select_Limited id limit n (m db).1 v (run_update-Limited id limit db n h first)
        (rw split at q))

abbrev pub Answered : ℤ → Outcome DbError (Option ℤ) → Type 0
Answered limit (ok v) = AnswerWithin limit v
Answered limit (err e) = Unit

-- What one call of `consume_usage` leaves and answers.
pub record Consumed (limit : ℤ) (answer : Outcome DbError (Option ℤ)) (after : Tables)
    : Type 0 where
  pub limited : Limited limit after
  pub answers : Answered limit answer

-- If no user's count is above the limit, then none is after a call of `consume_usage`, whatever
-- statement of it fails, and a count that it answers is at most the limit.
pub consume_usage-Consumed :
    (id : Text) (limit : ℤ) (db : Db)
    → Limited limit db.tables
    → Consumed limit (consume_usage id limit db).0 (consume_usage id limit db).1.tables
unfolding consume_usage consuming
consume_usage-Consumed id limit db h = record {
  limited = elim (Outcome-cases (consume_usage id limit db).0) [
    | inl (v, q) ↦
        let (inside, same, answer, left) = transaction_ok (consuming id limit) db v q in
        rw left (consuming-Limited id limit inside v (rw same h) answer).0
    | inr (e, q) ↦ rw (transaction_atomic (consuming id limit) db e q) h
  ];
  answers = elim (Outcome-cases (consume_usage id limit db).0) [
    | inl (v, q) ↦
        let (inside, same, answer, left) = transaction_ok (consuming id limit) db v q in
        rw q (consuming-Limited id limit inside v (rw same h) answer).1
    | inr (e, q) ↦ rw q tt
  ];
}
