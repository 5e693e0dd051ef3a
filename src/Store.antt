-- ===== src/Store.antt =====
-- store/src/lib.rs: the task that owns the database. Keys and values are as in the callers: a key is the
-- number that its bytes write, and a sender of a reply is a number.
-- RocksDB, which is not part of the repository, is `Db`.
pub mod Waiting
use accountability_gadget_pr.Base.{
  ℕ, List, [], ◌∷◌, ◌++◌, map, Option, none, some, Bool, not, ◌==◌, ok, err, panic, out_of_fuel,
  Outcome,
}
use accountability_gadget_pr.Base.Dict.{Dict, lookup_or, insert, retain_keys}

abbrev pub Value : Type 0
Value = List ℕ

-- `rocksdb::DB`: what `get` returns, which may be an error, and the database after `put`, whose result
-- the source drops.
pub record Db : Type 1 where
  pub Contents : Type 0
  pub Error : Type 0
  pub get : Contents → ℕ → Outcome Error (Option Value)
  pub put : Contents → ℕ → Value → Contents

pub data StoreCommand : Type 0 where
  write : ℕ → Value → StoreCommand
  read notify_read : ℕ → ℕ → StoreCommand

module _ (db : Db) where
  -- What goes to the sender of a `Read`, and to that of a `NotifyRead`.
  pub data Reply : Type 0 where
    to_read : ℕ → Outcome db.Error (Option Value) → Reply
    to_notify : ℕ → Outcome db.Error Value → Reply

  pub record StoreTask : Type 0 where
    pub contents : db.Contents
    pub obligations : Dict (List ℕ)

  abbrev pub new_store : db.Contents → StoreTask
  new_store contents = record { contents = contents; obligations = [] }

  -- The `match` on the response to a `NotifyRead`: `x.unwrap()` is reached with a value only.
  unfoldable pub notify :
      ℕ → ℕ → Outcome db.Error (Option Value) → StoreTask → List Reply × StoreTask
  notify key sender (ok none) s = (
    [],
    record s {
      obligations = insert key (lookup_or key [] s.obligations ++ sender ∷ []) s.obligations;
    },
  )
  notify key sender (ok (some value)) s = (to_notify sender (ok value) ∷ [], s)
  notify key sender (err e) s = (to_notify sender (err e) ∷ [], s)
  notify key sender panic s = ([], s)
  notify key sender out_of_fuel s = ([], s)

  -- One command; the senders of a key are taken out and each gets the value, in their order.
  unfoldable pub on_store_command : StoreCommand → StoreTask → List Reply × StoreTask
  unfolding notify
  on_store_command (write key value) s = (
    map (λ sender. to_notify sender (ok value)) (lookup_or key [] s.obligations),
    record s {
      contents = db.put s.contents key value;
      obligations = retain_keys (λ k. not (k == key)) s.obligations;
    },
  )
  on_store_command (read key sender) s = (to_read sender (db.get s.contents key) ∷ [], s)
  on_store_command (notify_read key sender) s = notify key sender (db.get s.contents key) s

  unfoldable pub run_store : List StoreCommand → StoreTask → List Reply × StoreTask
  run_store [] s = ([], s)
  run_store (c ∷ cs) s =
      let here = on_store_command c s in
      let rest = run_store cs here.1 in (here.0 ++ rest.0, rest.1)
