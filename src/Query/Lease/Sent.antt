-- ===== src/Query/Lease/Sent.antt =====
-- When a connection of the pool is sent the user's SQL (guarded_query/query.py).
use query_boy.Base.{
  ◌⊎◌, Bool-cases, false, Bool, ℕ, String, true, [], ◌≡◌, inl, inr, refl, sym, ◌∙◌, ap,
}
use query_boy.Base.Result.{Result, ok, err}
use query_boy.Encoding.{Library}
use query_boy.Models.{SourceProfile}
use query_boy.Operations.{OperationalState}
use query_boy.Reader.{ReaderSessionPolicyError, ConnectionInfo, require_reader_connection_policy}
use query_boy.Sql.Validate.{ValidatedSql}
use query_boy.Query.Failures.{Failure, reader_policy}
use query_boy.Query.Plan.{Floats, PlanSummary}
use query_boy.Query.Session.{Statement, close, Session, given}
use query_boy.Query.Session.Steps.{
  cleaned_up-eq-ok, is_sql, is_execution, sends, continued-sends, ask-IsQuiet,
}
use query_boy.Query.Connection.{Database, execute_connection}
use query_boy.Query.Connection.Guarded.{IsAdmitted, execute_connection-IsAdmitted}
use query_boy.Query.Connection.Quiet.{executed}
use query_boy.Query.Connection.Confirmed.{IsConfirmed, execute_connection-IsConfirmed}
use query_boy.Query.Lease.{Lease, closed_if_refused, use_connection, lease_connection}

-- A connection was leased that meets the policy of the reader.
abbrev pub HasConnectionPolicy : Lease → SourceProfile → Type 0
HasConnectionPolicy lease source =
    (info : ConnectionInfo) × (lease.leased ≡ ok info)
    × (require_reader_connection_policy info source.connection.sslmode ≡ ok tt)

closed_if_refused-sends :
    (P : Statement → Bool) (others : (x : Statement) → is_sql x ≡ false → P x ≡ false)
    (lease : Lease) (answer : Result ReaderSessionPolicyError (Unit {0})) (s : Session)
    → sends P (closed_if_refused lease answer s).1 ≡ sends P s
closed_if_refused-sends P others lease (ok done) s = refl
closed_if_refused-sends P others lease (err raised) s =
    ask-IsQuiet P close lease.closed (others close refl) s

closed_if_refused-eq-ok :
    (lease : Lease) (answer : Result ReaderSessionPolicyError (Unit {0})) (s : Session)
    {u : Unit {0}} {t : Session}
    → closed_if_refused lease answer s ≡ (ok u, t)
    → (answer ≡ ok tt) × (s ≡ t)
closed_if_refused-eq-ok lease (ok done) s h =
    (refl, ap (λ (p : Result Failure (Unit {0}) × Session). p.1) h)
closed_if_refused-eq-ok lease (err raised) s h = absurd (
    cc (
      cleaned_up-eq-ok lease.closed (err reader_policy)
        (ap (λ (p : Result Failure (Unit {0}) × Session). p.0) h)))

module _ (F : Floats) (lib : Library) (db : Database F lib) (source : SourceProfile)
    (validated : ValidatedSql) (lease : Lease) (revision : String) (queue_ms : ℕ)
    (query_id : String) (operations : OperationalState) where
  abbrev start : Session
  start = record { operations = operations; statements = [] }

  -- What the connection was asked for, and what the whole lease asks for.
  abbrev executed_session : Session
  executed_session =
      (execute_connection F lib db source revision validated queue_ms query_id start).1

  abbrev pub leased_session : Session
  leased_session =
      (lease_connection F lib lease db source revision validated queue_ms query_id start).1

  use_connection-sends :
      (P : Statement → Bool) (others : (x : Statement) → is_sql x ≡ false → P x ≡ false)
      → sends P (use_connection F lib lease db source revision validated queue_ms query_id start).1
        ≡ true
      → HasConnectionPolicy lease source × (sends P executed_session ≡ true)
  unfolding use_connection
  use_connection-sends P others sent = elim (continued-sends P (given lease.leased start) _ sent) [
    | inl early ↦ absurd (cc early)
    | inr (info, s, leased, later) ↦
        let policy = require_reader_connection_policy info source.connection.sslmode in
        let same = ap (λ (p : Result Failure ConnectionInfo × Session). p.1) leased in
        elim (continued-sends P (closed_if_refused lease policy s) _ later) [
          | inl early ↦ absurd (
              cc (
                sym early
                ∙ closed_if_refused-sends P others lease policy s
                ∙ ap (sends P) (sym same)))
          | inr (done, t, kept, last) ↦
              let (meets, still) = closed_if_refused-eq-ok lease policy s kept in
              (
                (info, ap (λ (p : Result Failure ConnectionInfo × Session). p.0) leased, meets),
                ap
                      (λ u.
                        sends P
                          (execute_connection F lib db source revision validated queue_ms query_id
                            u).1)
                      (same ∙ still)
                    ∙ last,
              )
        ]
  ]

  leased_session-sends :
      (P : Statement → Bool) (others : (x : Statement) → is_sql x ≡ false → P x ≡ false)
      → sends P leased_session ≡ true
      → HasConnectionPolicy lease source × (sends P executed_session ≡ true)
  unfolding lease_connection
  leased_session-sends P others sent = elim (continued-sends P (given lease.pool start) _ sent) [
    | inl early ↦ absurd (cc early)
    | inr (done, s, pooled, later) ↦ use_connection-sends P others (
        ap
          (λ u.
            sends P (use_connection F lib lease db source revision validated queue_ms query_id u).1)
          (ap (λ (p : Result Failure (Unit {0}) × Session). p.1) pooled)
        ∙ later)
  ]

  -- If the SQL of a caller reaches the database at all, to be explained or to be run and however the query
  -- ends, then over a connection and in a session that meet the reader policy, after the database has
  -- confirmed every function and operator of the SQL as safe. And the SQL is not run, or its plan was
  -- admitted: it is within the limits of the source's budget.
  pub lease_connection-sends :
      sends is_sql leased_session ≡ true
      → HasConnectionPolicy lease source
        × IsConfirmed F lib db source validated
        × ((sends is_execution leased_session ≡ false)
            ⊎ ((plan : PlanSummary F) × IsAdmitted F lib db source validated plan))
  lease_connection-sends sent =
      let (connected, explained) = leased_session-sends is_sql (λ x h. h) sent in
      (
        connected,
        execute_connection-IsConfirmed F lib db source validated revision queue_ms query_id
            operations explained,
        (elim (Bool-cases (sends is_execution leased_session)) [
          | inl run ↦ inr (
              execute_connection-IsAdmitted F lib db source validated revision queue_ms query_id
                operations (leased_session-sends is_execution executed run).1)
          | inr kept ↦ inl kept
        ]),
      )
