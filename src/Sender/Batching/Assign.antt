-- ===== src/Sender/Batching/Assign.antt =====
-- What storing a group does to the table of transfers.
use erc20_payment_lib.Prelude.{
  ℕ, ◌≡◌, List, [], ◌∷◌, ◌++◌, some, Bool, true, false, not, ◌||◌, ◌==◌, All,
}
use erc20_payment_lib.Db.{Db, TxDbObj, TokenTransferDbObj, select, update_where, insert_tx}

-- A transfer with this id is in the list.
abbrev pub in_group : List TokenTransferDbObj → ℕ → Bool
in_group [] id = false
in_group (t ∷ tts) id = t.id == id || in_group tts id

abbrev Assigned : ℕ → (ℕ → Bool) → TokenTransferDbObj → Type 0
Assigned n p r = p r.id ≡ true → r.tx_id ≡ some n

abbrev assign_row : ℕ → TokenTransferDbObj → List TokenTransferDbObj → List TokenTransferDbObj
assign_row n t =
    update_where (λ r. r.id == t.id) (λ r. record t { tx_id = some n; create_date = r.create_date })

assign_rows : ℕ → List TokenTransferDbObj → List TokenTransferDbObj → List TokenTransferDbObj
assign_rows n [] rows = rows
assign_rows n (t ∷ tts) rows = assign_rows n tts (assign_row n t rows)

-- What storing a group leaves.
abbrev pub IsStored : List TokenTransferDbObj → TxDbObj → Db → Db → Type 0
IsStored tts web3tx db db' =
    (db'.txs ≡ db.txs ++ (insert_tx web3tx db).1 ∷ [])
    × All (λ r. in_group tts r.id ≡ true → r.tx_id ≡ some (insert_tx web3tx db).1.id)
        db'.token_transfers
    × (select (λ r. not (in_group tts r.id)) db'.token_transfers
        ≡ select (λ r. not (in_group tts r.id)) db.token_transfers)
