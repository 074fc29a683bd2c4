-- ===== src/Bitcoind/Wallets.antt =====
-- src/daemon/bitcoind/interface.rs and src/daemon/bitcoind/mod.rs: the calls about the node and its
-- wallets, by the part of the answer that the daemon reads. Texts are numbers.
use Prim.Native.String.{String}
use text.Mathlib.Text.{◌==◌ as str_eq}
use revaultd.Prelude.{
  ℕ, zero, suc, Bool, true, false, Option, none, some, List, [], ◌∷◌, ◌==◌, map, if◌then◌else◌, ok,
  err, ok_or, guard,
}
use revaultd.Fault.{
  Fault, Res, custom, panic, api_break, wrong_network, creating_wallet, loading_wallet,
  unloading_wallet, import_refused, still_running, is_warming_up,
}
use revaultd.Bitcoind.Run.{World, Run, ◌>>=◌, return, fail, lift, request}
use revaultd.Bitcoind.Sync.{deposit_utxos_label, unvault_utxos_label}

-- The fields of `getblockchaininfo`, of which each may be absent or of another type. `F` is `f64`.
pub record ChainInfo (F : Type 0) : Type 0 where
  pub headers : Option ℕ
  pub blocks : Option ℕ
  pub initialblockdownload : Option Bool
  pub verificationprogress : Option F
  pub chain : Option String

pub record SyncInfo (F : Type 0) : Type 0 where
  pub headers : ℕ
  pub blocks : ℕ
  pub ibd : Bool
  pub progress : F

-- An entry of `importdescriptors`; no timestamp stands for "now".
pub record Import : Type 0 where
  pub desc : ℕ
  pub timestamp : Option ℕ
  pub label : ℕ

-- What the n-th request answers.
pub record Node (F : Type 0) : Type 0 where
  pub getblockchaininfo : ℕ → Res (ChainInfo F)
  -- whether the answer has a name
  pub createwallet : ℕ → ℕ → Res Bool
  pub loadwallet : ℕ → ℕ → Res Bool
  -- the length of the warning, if it is a text
  pub unloadwallet : ℕ → ℕ → Res (Option ℕ)
  -- an array, of texts
  pub listwallets : ℕ → Res (Option (List (Option ℕ)))
  -- the descriptor, if there is one, and if it is a text
  pub getdescriptorinfo : ℕ → ℕ → Res (Option (Option ℕ))
  -- "success" of the first entry, if it is there
  pub importdescriptors : ℕ → List Import → Res (Option Bool)

pub data Network : Type 0 where
  bitcoin testnet regtest signet : Network

abbrev pub bip70_net : Network → String
bip70_net bitcoin = "main"
bip70_net testnet = "test"
bip70_net regtest = "regtest"
bip70_net signet = "signet"

abbrev pub texts : List (Option ℕ) → Res (List ℕ)
texts [] = ok []
texts (none ∷ vs) = err panic
texts (some v ∷ vs) = elim (texts vs) [ ok rest ↦ ok (v ∷ rest) | err e ↦ err e ]

abbrev pub unless_named : Fault → Bool → Run (Unit {0})
unless_named e named = lift (guard e named)

module _ {F : Type 0} (node : Node F) where
  unfoldable pub synchronization_info : Run (SyncInfo F)
  synchronization_info = do
    chaininfo ← request node.getblockchaininfo
    headers ← lift (ok_or (custom api_break) chaininfo.headers)
    blocks ← lift (ok_or (custom api_break) chaininfo.blocks)
    ibd ← lift (ok_or (custom api_break) chaininfo.initialblockdownload)
    progress ← lift (ok_or (custom api_break) chaininfo.verificationprogress)
    return (record { headers = headers; blocks = blocks; ibd = ibd; progress = progress })

  unfoldable pub createwallet_startup : ℕ → Run (Unit {0})
  createwallet_startup wallet_path =
      request (λ n. node.createwallet n wallet_path) >>= unless_named (custom creating_wallet)

  unfoldable pub loadwallet_startup : ℕ → Run (Unit {0})
  loadwallet_startup wallet_path =
      request (λ n. node.loadwallet n wallet_path) >>= unless_named (custom loading_wallet)

  unfoldable pub unloadwallet : ℕ → Run (Unit {0})
  unloadwallet wallet_path = do
    res ← request (λ n. node.unloadwallet n wallet_path)
    warning ← lift (ok_or (custom api_break) res)
    lift (guard (custom unloading_wallet) (warning == 0))

  unfoldable pub listwallets : Run (List ℕ)
  listwallets = do
    res ← request node.listwallets
    vec ← lift (ok_or (custom api_break) res)
    lift (texts vec)

  unfoldable pub addr_descriptor : ℕ → Run ℕ
  addr_descriptor address = do
    res ← request (λ n. node.getdescriptorinfo n address)
    descriptor ← lift (ok_or (custom api_break) res)
    lift (ok_or (custom api_break) descriptor)

  -- `… == Some(Some(&Json::Bool(true)))`
  abbrev pub unless_success : Option Bool → Run (Unit {0})
  unless_success (some true) = return tt
  unless_success (some false) = fail (custom import_refused)
  unless_success none = fail (custom import_refused)

  -- The timestamp of a fresh wallet is "now", so that bitcoind does not scan for each descriptor.
  unfoldable pub bulk_import_descriptors : List ℕ → ℕ → ℕ → Bool → Run (Unit {0})
  bulk_import_descriptors descriptors timestamp label fresh_wallet =
      request (λ n. node.importdescriptors n (
        map
          (λ (desc : ℕ). record {
            desc = desc;
            timestamp = if fresh_wallet then none else some timestamp;
            label = label;
          })
          descriptors))
      >>= unless_success

  unfoldable pub startup_import_deposit_descriptors : List ℕ → ℕ → Bool → Run (Unit {0})
  unfolding bulk_import_descriptors
  startup_import_deposit_descriptors descriptors timestamp fresh_wallet =
      bulk_import_descriptors descriptors timestamp deposit_utxos_label fresh_wallet

  unfoldable pub startup_import_unvault_descriptors : List ℕ → ℕ → Bool → Run (Unit {0})
  unfolding bulk_import_descriptors
  startup_import_unvault_descriptors descriptors timestamp fresh_wallet =
      bulk_import_descriptors descriptors timestamp unvault_utxos_label fresh_wallet

  unfoldable pub import_fresh_descriptor : ℕ → ℕ → Run (Unit {0})
  import_fresh_descriptor descriptor label =
      request (λ n.
        node.importdescriptors n
          (record { desc = descriptor; timestamp = none; label = label } ∷ []))
      >>= unless_success

  unfoldable pub import_fresh_deposit_descriptor : ℕ → Run (Unit {0})
  unfolding import_fresh_descriptor
  import_fresh_deposit_descriptor descriptor =
      import_fresh_descriptor descriptor deposit_utxos_label

  unfoldable pub import_fresh_unvault_descriptor : ℕ → Run (Unit {0})
  unfolding import_fresh_descriptor
  import_fresh_unvault_descriptor descriptor =
      import_fresh_descriptor descriptor unvault_utxos_label

  unfoldable pub check_bitcoind_network : Network → Run (Unit {0})
  check_bitcoind_network config_network = do
    chaininfo ← request node.getblockchaininfo
    chain ← lift (ok_or (custom api_break) chaininfo.chain)
    lift (guard (custom wrong_network) (str_eq (bip70_net config_network) chain))

  abbrev pub unless_warming_up :
      (World → Res (Unit {0}) × World) → Res (Unit {0}) × World → Res (Unit {0}) × World
  unless_warming_up again (ok u, w) = (ok u, w)
  unless_warming_up again (err e, w) = if is_warming_up e then again w else (err e, w)

  -- `while let Err(e) = bitcoind_sanity_checks(…)`, with fuel for each try
  unfoldable pub start_bitcoind : ℕ → Network → Run (Unit {0})
  unfolding check_bitcoind_network is_warming_up
  start_bitcoind zero config_network = fail still_running
  start_bitcoind (suc fuel) config_network = λ w.
      unless_warming_up (start_bitcoind fuel config_network)
        (check_bitcoind_network config_network w)
