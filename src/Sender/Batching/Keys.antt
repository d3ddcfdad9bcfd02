-- ===== src/Sender/Batching/Keys.antt =====
-- The keys that transfers are grouped by, and the map of the groups in the order of their creation.
use erc20_payment_lib.Prelude.{
  ℕ, String, List, [], ◌∷◌, ◌++◌, Option, none, some, Bool, true, false, ◌&&◌, ◌==◌, str_eq,
  if◌then◌else◌,
}
use erc20_payment_lib.Db.{TokenTransferDbObj}

pub record TokenTransferKey : Type 0 where
  pub from_addr : String
  pub receiver_addr : String
  pub chain_id : ℕ
  pub token_addr : Option String
  pub deposit_id : Option String

pub record TokenTransferMultiKey : Type 0 where
  pub from_addr : String
  pub chain_id : ℕ
  pub token_addr : Option String
  pub deposit_id : Option String

pub record TokenTransferMultiOrder : Type 0 where
  pub receiver : ℕ
  pub token_transfers : List TokenTransferDbObj

abbrev pub TokenTransferMap : Type 0
TokenTransferMap = List (TokenTransferKey × List TokenTransferDbObj)

abbrev pub opt_str_eq : Option String → Option String → Bool
opt_str_eq none none = true
opt_str_eq (some s) (some t) = str_eq s t
opt_str_eq _ _ = false

-- `PartialEq`.
unfoldable pub key_eq : TokenTransferKey → TokenTransferKey → Bool
key_eq a b =
    str_eq a.from_addr b.from_addr
    && str_eq a.receiver_addr b.receiver_addr
    && a.chain_id == b.chain_id
    && opt_str_eq a.token_addr b.token_addr
    && opt_str_eq a.deposit_id b.deposit_id

abbrev pub key_of : TokenTransferDbObj → TokenTransferKey
key_of f = record {
  from_addr = f.from_addr;
  receiver_addr = f.receiver_addr;
  chain_id = f.chain_id;
  token_addr = f.token_addr;
  deposit_id = f.deposit_id;
}

-- `transfer_map.get_mut(&key)` and a push, or a new group.
unfoldable pub push_group :
    TokenTransferKey → TokenTransferDbObj → TokenTransferMap → TokenTransferMap
push_group key f [] = (key, f ∷ []) ∷ []
push_group key f ((k, v) ∷ rest) =
    if key_eq k key then (k, v ++ f ∷ []) ∷ rest else (k, v) ∷ push_group key f rest

-- The group of a key, empty where there is none.
abbrev pub group_of : TokenTransferKey → TokenTransferMap → List TokenTransferDbObj
group_of key [] = []
group_of key ((k, v) ∷ rest) = if key_eq k key then v else group_of key rest
