-- ===== src/Bitcoind/Json.antt =====
-- src/daemon/bitcoind/interface.rs: what the client reads of the JSON that bitcoind answers.
use revaultd.Prelude.{
  ℕ, Bool, true, false, Option, none, some, List, [], ◌∷◌, ◌%◌, ◌^◌, if◌then◌else◌, ok, err, ok_or,
  ◌>>=◌,
}
use revaultd.Fault.{Res, custom, api_break, panic}
use revaultd.Database.Schema.{Txid, OutPoint, outpoint_eq}

-- A field that is absent, or not of its type, is `none`; a string is a number that names it.
pub record JsonInput : Type 0 where
  pub txid : Option Txid
  pub vout : Option ℕ

pub record JsonTx : Type 0 where
  pub hex : Option ℕ
  pub blockheight : Option (Option ℕ)  -- absent, or there and maybe a u64
  pub timereceived : Option ℕ
  pub vin : Option (List JsonInput)  -- .decoded.vin

pub record JsonEntry : Type 0 where
  pub is_send : Bool  -- the category is "send"
  pub txid : Option ℕ  -- its text

-- What `get_wallet_transaction` returns.
pub record WalletTx : Type 0 where
  pub hex : ℕ
  pub blockheight : Option ℕ
  pub received : ℕ

-- `res.get("blockheight").map(|bh| bh.as_u64().unwrap() as u32)`
abbrev pub height_of : Option (Option ℕ) → Res (Option ℕ)
height_of none = ok none
height_of (some none) = err panic
height_of (some (some h)) = ok (some (h % 2 ^ 32))

unfoldable pub parse_tx : JsonTx → Res WalletTx
parse_tx res = do
  hex ← ok_or (custom api_break) res.hex
  blockheight ← height_of res.blockheight
  received ← ok_or (custom api_break) res.timereceived
  ok (record { hex = hex; blockheight = blockheight; received = received % 2 ^ 32 })

-- `for input in vin`: whether one of the inputs is the outpoint, which stops the search.
unfoldable pub spends : OutPoint → List JsonInput → Res Bool
spends o [] = ok false
spends o (input ∷ inputs) =
    let rest = spends o inputs in
    ok_or (custom api_break) input.txid >>= λ txid. ok_or (custom api_break) input.vout >>= λ vout.
    (if outpoint_eq o (record { txid = txid; vout = vout % 2 ^ 32 }) then ok true else rest)
