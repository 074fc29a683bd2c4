-- ===== src/Poller/Watchonly.antt =====
-- src/daemon/bitcoind/poller.rs: the watchonly wallet is created and loaded; and src/daemon/revaultd.rs:
-- the addresses that are imported to it.
use revaultd.Prelude.{
  ℕ, zero, suc, ◌+◌, ◌-◌, ◌%◌, ◌^◌, ltb, Bool, Option, List, [], ◌∷◌, ◌==◌, map, exists, select,
  length, if◌then◌else◌, ok, ok_or,
}
use revaultd.Fault.{custom, panic, many_wallets, no_time, still_running}
use revaultd.Database.Schema.{DbWallet}
use revaultd.Database.Interface.{db_wallet}
use revaultd.Bitcoind.Run.{Run, ◌>>=◌, ◌>>◌, return, fail, lift, get_db, or_default}
use revaultd.Bitcoind.Wallets.{
  Node, listwallets, unloadwallet, createwallet_startup, loadwallet_startup, addr_descriptor,
  startup_import_deposit_descriptors, startup_import_unvault_descriptors,
}

-- What is known of the wallet outside the database: its path, whether the file is there, the time, the
-- scripts of the derivation index map as addresses, and the addresses of the Unvault outputs.
pub record Watchonly : Type 0 where
  pub wallet_path : Option ℕ
  pub is_there : Bool
  pub clock : Option ℕ
  pub deposit_addresses : List ℕ
  pub unvault_address : ℕ → ℕ

-- `(0..raw_index + self.gap_limit())` on `u32`, from the first one
abbrev pub indices_from : ℕ → ℕ → List ℕ
indices_from zero i = []
indices_from (suc n) i = i ∷ indices_from n (suc i)

abbrev pub all_unvault_addresses : Watchonly → ℕ → List ℕ
all_unvault_addresses watchonly raw_index =
    map watchonly.unvault_address (indices_from ((raw_index + 100) % 2 ^ 32) 0)

abbrev get_index : Run ℕ
get_index w = (ok w.current_unused_index, w)

module _ {F : Type 0} (node : Node F) (watchonly : Watchonly) where
  -- `while bitcoind.listwallets()?.contains(&path)`, of which a failure to unload is logged; with fuel
  -- for each round
  unfoldable pub unload_leftover : ℕ → ℕ → Run (Unit {0})
  unfolding listwallets unloadwallet
  unload_leftover zero path = fail still_running
  unload_leftover (suc fuel) path = do
    let again = unload_leftover fuel path
    wallets ← listwallets node
    (if exists (λ p. p == path) wallets
        then (or_default tt (unloadwallet node path) >> again)
        else return tt)

  -- `addresses[i] = bitcoind.addr_descriptor(&addresses[i])?`
  unfoldable pub addr_descriptors : List ℕ → Run (List ℕ)
  unfolding addr_descriptor
  addr_descriptors [] = return []
  addr_descriptors (address ∷ addresses) = do
    desc ← addr_descriptor node address
    descs ← addr_descriptors addresses
    return (desc ∷ descs)

  -- `(curr_timestamp - wallet.timestamp as u64) < 30`: the difference wraps in a release build.
  abbrev pub is_fresh : ℕ → ℕ → Bool
  is_fresh now timestamp = ltb ((now + 2 ^ 64 - timestamp) % 2 ^ 64) 30

  unfoldable pub create_wallet : ℕ → ℕ → DbWallet → Bool → Run (Unit {0})
  unfolding unload_leftover createwallet_startup addr_descriptors startup_import_deposit_descriptors
      startup_import_unvault_descriptors
  create_wallet fuel path wallet fresh_wallet = do
    w ← get_index
    unload_leftover fuel path
    createwallet_startup node path
    deposits ← addr_descriptors watchonly.deposit_addresses
    startup_import_deposit_descriptors node deposits wallet.timestamp fresh_wallet
    unvaults ← addr_descriptors (all_unvault_addresses watchonly w)
    startup_import_unvault_descriptors node unvaults wallet.timestamp fresh_wallet

  unfoldable pub maybe_create_wallet : ℕ → Run (Unit {0})
  unfolding db_wallet create_wallet
  maybe_create_wallet fuel = do
    db ← get_db
    wallet ← lift (db_wallet db)
    path ← lift (ok_or panic watchonly.wallet_path)
    now ← lift (ok_or (custom no_time) watchonly.clock)
    (if watchonly.is_there
        then return tt
        else create_wallet fuel path wallet (is_fresh now wallet.timestamp))

  abbrev pub by_count : ℕ → ℕ → Run (Unit {0})
  by_count path count =
      if count == 0
      then loadwallet_startup node path
      else if count == 1
      then return tt
      else fail (custom many_wallets)

  unfoldable pub maybe_load_wallet : Run (Unit {0})
  unfolding listwallets loadwallet_startup select
  maybe_load_wallet = do
    path ← lift (ok_or panic watchonly.wallet_path)
    wallets ← listwallets node
    by_count path (length (select (λ p. p == path) wallets))
