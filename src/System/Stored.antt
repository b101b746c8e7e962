-- ===== src/System/Stored.antt =====
-- The invariants of the database over any history of requests and runs, where the primary keys and the
-- unique constraints of migrations are enforced.
use distributed_wagering_pro.System.{
  Event, History, opens, submits, consumes, publishes, reprocesses, start, event,
}
use distributed_wagering_pro.Kernel.Money
use distributed_wagering_pro.Wagering.Submit
use distributed_wagering_pro.Wallets.Open
use distributed_wagering_pro.Wallets.Http.{CreateWalletDto, open_wallet, to_wallet_view}
use distributed_wagering_pro.Wagering.Http.{
  submit_transaction, SubmitDto, command_of, SubmitView, submit_view,
}
use distributed_wagering_pro.System.Consistent.{Event-IsBalanced}
use distributed_wagering_pro.Wallets.Open.{OpenWalletCommand}
use distributed_wagering_pro.Wagering.Parse.Amounts.{from-nonneg}
use distributed_wagering_pro.Wagering.Reprocess.Sound.{run-Sound}
use distributed_wagering_pro.Persistence.World.{Platform, World, Em, App}
use distributed_wagering_pro.Persistence.Schema.{EnforcesUnique}
use distributed_wagering_pro.Persistence.Balanced.{IsBalanced}
use distributed_wagering_pro.Persistence.Schema.Commits.{Sound}
use distributed_wagering_pro.Kernel.Event.{Timestamp}
use distributed_wagering_pro.Wagering.Submit.{Clock}
use distributed_wagering_pro.Messaging.Sqs.{SqsPort}
use distributed_wagering_pro.Persistence.Schema.Keys.{IsKeyed}
use distributed_wagering_pro.Persistence.Schema.Writes.{
  Owned, Open, Writes, Writes-refl, LedgerChecked, Open-IsRule, TransactionChecked, Writes-trans,
  Writes-mono, immutable_entry, Owned-IsRule,
}
use distributed_wagering_pro.Persistence.Schema.Evolves.{All-Evolves}
use distributed_wagering_pro.Prelude.{All, [], subst, inl, ◌≡◌, sym, inr, refl}
use distributed_wagering_pro.Wagering.Consume.Sound.{consumer-Sound}
use distributed_wagering_pro.Persistence.Schema.Triggers.{Passes, reject_ledger_mutation}
use distributed_wagering_pro.Wagering.Row.{TransactionRow}
use distributed_wagering_pro.Kernel.Errors.{Result, err, ok}
use distributed_wagering_pro.Messaging.Publish.Sound.{publisher-Sound}
use distributed_wagering_pro.Kernel.Money.{Money}
use distributed_wagering_pro.Persistence.Effect.{continue, ◌>>=◌, pure, continue-keeps}
use distributed_wagering_pro.Persistence.Ordering.Keys.{All-intro}
use distributed_wagering_pro.Wallets.Open.Writes.{opening-Sound}
use distributed_wagering_pro.Wagering.Submit.Writes.{execute-Sound}

-- What holds of the stored rows.
pub record IsStored (P : Platform) (w : World P) : Type 0 where
  pub balanced : IsBalanced P w
  pub keyed : IsKeyed P w.em
  pub ledger : All LedgerChecked (P.tables.ledger.rows w.em.ledger)
  pub transactions : All TransactionChecked (P.tables.transactions.rows w.em.transactions)

module _ {P : Platform} where
  -- Where no row may change, every row that is not terminal may.
  Sound-Open : (em em' : Em P.tables) → Sound P (Owned []) em em' → Sound P Open em em'
  Sound-Open em em' (writes, keyed) = (
    Writes-mono P (Owned []) Open (λ _. Unit) em em' weaker
        (All-intro (λ _. Unit) (P.tables.transactions.rows em.transactions) (λ _ _. tt)) writes,
    keyed,
  )
    where
      weaker : (r s : TransactionRow) → Unit {0} → Owned [] r s → Open r s
      weaker r s _ (inl e) = inl e
      weaker r s _ (inr (o, _, _)) = absurd o

  module _ (enforces : EnforcesUnique P) where
    open_wallet-Sound :
        (dto : CreateWalletDto) (now : Timestamp) (w : World P)
        → IsKeyed P w.em
        → Sound P (Owned []) w.em (open_wallet dto now w).1.em
    unfolding open_wallet
    open_wallet-Sound dto now w keyed = by_money (Money.from dto.initial_balance) refl
      where
        by_money :
            (r : Result Money)
            → Money.from dto.initial_balance ≡ r
            → Sound P
                (Owned [])
                w.em
                (continue
                  (λ m.
                    Open.execute (record { player_id = dto.player_id; initial_balance = m }) now
                    >>= λ wallet. pure (to_wallet_view P wallet))
                  (r, w)).1.em
        by_money (err e) h = (Writes-refl P (Owned-IsRule []) w.em, keyed)
        by_money (ok m) h =
            let cmd : OpenWalletCommand = record {
              player_id = dto.player_id;
              initial_balance = m;
            } in
            continue-keeps (λ v. Sound P (Owned []) w.em v.em) _ (Open.execute cmd now w)
              (opening-Sound P cmd now w enforces (from-nonneg dto.initial_balance h) keyed)
              (λ _ v sound. sound)

    submit_transaction-Sound :
        (dto : SubmitDto) (clock : Clock) (w : World P)
        → IsBalanced P w
        → IsKeyed P w.em
        → Sound P (Owned []) w.em (submit_transaction dto clock w).1.em
    unfolding submit_transaction
    submit_transaction-Sound dto clock w b keyed = by_money (Money.from dto.money) refl
      where
        answer : Money → App P SubmitView
        answer m = Submit.execute (command_of dto m) clock >>= λ result. pure (submit_view P result)

        by_money :
            (r : Result Money)
            → Money.from dto.money ≡ r
            → Sound P (Owned []) w.em (continue answer (r, w)).1.em
        by_money (err e) h = (Writes-refl P (Owned-IsRule []) w.em, keyed)
        by_money (ok m) h =
            continue-keeps (λ v. Sound P (Owned []) w.em v.em) _
              (Submit.execute (command_of dto m) clock w)
              (execute-Sound P (command_of dto m) clock enforces (from-nonneg dto.money h) w b
                keyed)
              (λ _ v sound. sound)

    module _ (sqs : SqsPort P) where
      -- One request, or one run: only rows of transactions that are not terminal change.
      pub Event-Sound : {v w : World P} → Event sqs v w → IsStored P v → Sound P Open v.em w.em
      Event-Sound {v = v} {w = w} (opens dto now fresh) s =
          Sound-Open v.em w.em (open_wallet-Sound dto now v s.keyed)
      Event-Sound {v = v} {w = w} (submits dto clock) s =
          Sound-Open v.em w.em (submit_transaction-Sound dto clock v s.balanced s.keyed)
      Event-Sound {v = v} {w = w} (consumes submitted clock) s =
          Sound-Open v.em w.em
            (consumer-Sound enforces v sqs clock submitted 10 5 s.balanced s.keyed)
      Event-Sound {v = v} {w = w} (publishes now) s =
          Sound-Open v.em w.em (publisher-Sound now sqs v 20 enforces s.keyed)
      Event-Sound {v = v} (reprocesses now) s =
          run-Sound P now v 20 enforces s.balanced s.keyed s.transactions

      Event-IsStored : {v w : World P} → Event sqs v w → IsStored P v → IsStored P w
      Event-IsStored {v = v} {w = w} e s =
          let (writes, keyed) = Event-Sound e s in
          record {
            balanced = Event-IsBalanced sqs e s.balanced;
            keyed = keyed;
            ledger =
                All-Evolves (Passes reject_ledger_mutation) LedgerChecked
                  (λ r t h p. subst LedgerChecked (sym (immutable_entry r t p)) h)
                  (P.tables.ledger.rows v.em.ledger) (P.tables.ledger.rows w.em.ledger) s.ledger
                  writes.ledger;
            transactions =
                All-Evolves Open TransactionChecked Open-IsRule.checked
                  (P.tables.transactions.rows v.em.transactions)
                  (P.tables.transactions.rows w.em.transactions) s.transactions writes.transactions;
          }

      pub History-IsStored : {v w : World P} → History sqs v w → IsStored P v → IsStored P w
      History-IsStored start s = s
      History-IsStored (event h e) s = Event-IsStored e (History-IsStored h s)

      -- The writes of a whole history.
      pub History-Writes :
          {v w : World P} → History sqs v w → IsStored P v → Writes P Open v.em w.em
      History-Writes {v = v} start s = Writes-refl P Open-IsRule v.em
      History-Writes {v = v} {w = w} (event {v = u} h e) s =
          Writes-trans P Open-IsRule v.em u.em w.em (History-Writes h s)
            (Event-Sound e (History-IsStored h s)).0
