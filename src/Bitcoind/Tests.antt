-- ===== src/Bitcoind/Tests.antt =====
-- A cache of three deposits against a list of two: one deposit is spent, one gets its sixth
-- confirmation, one is new.
use revaultd.Prelude.{
  ℕ, ◌≡◌, refl, Bool, true, false, none, some, List, [], ◌∷◌, ok, err, ◌≢◌, arith,
}
use revaultd.Database.Schema.{OutPoint}
use revaultd.Fault.{still_running}
use revaultd.Bitcoind.Retry.{json, make_request}
use revaultd.Bitcoind.Retry.Ends.{make_request-ends}
use revaultd.Cache.{UtxoInfo, Cache, get, insert, remove}
use revaultd.Bitcoind.Sync.{
  JsonUtxo, OnchainDescriptorState, classify, sync_entry, sync_loop, sync_chainstate,
}
use revaultd.Bitcoind.Sync.Classes.{sync_chainstate_known}

abbrev point : ℕ → OutPoint
point n = record { txid = n; vout = 0 }

abbrev info : ℕ → Bool → UtxoInfo
info v b = record { value = v; script_pubkey = 70; is_confirmed = b }

abbrev listed : ℕ → ℕ → ℕ → JsonUtxo
listed l n c = record {
  label = some l;
  confirmations = some c;
  outpoint = some (point n);
  address = some 70;
  amount = some 500;
}

abbrev cached : Cache
cached = (point 1, info 100 true) ∷ (point 2, info 200 false) ∷ []

abbrev answer : List JsonUtxo
answer = listed 0 2 6 ∷ listed 1 1 9 ∷ listed 0 3 0 ∷ []

abbrev synced : OnchainDescriptorState
synced = record {
  new_unconf = (point 3, info 500 false) ∷ [];
  new_conf = (point 2, info 200 false) ∷ [];
  new_spent = (point 1, info 100 true) ∷ [];
}

answer_lem : sync_chainstate cached 0 6 answer ≡ ok synced
unfolding sync_chainstate sync_loop sync_entry classify get insert remove
answer_lem = refl

-- The entry of deposit 1 has another label, so it counts as spent.
sync_chainstate_known_example :
    (get synced.new_spent (point 2) ≡ none)
    × (get synced.new_conf (point 2) ≡ some (info 200 false))
unfolding get
sync_chainstate_known_example = sync_chainstate_known cached 0 6 answer synced answer_lem (point 2)

-- A server whose answers are never JSON.
make_request-ends_example :
    make_request (record { took = λ n. 0; overslept = λ n. 0 }) (λ n. err json) (λ (r : ℕ). ok r) 92
    ≢ err still_running
make_request-ends_example =
    make_request-ends (record { took = λ n. 0; overslept = λ n. 0 }) (λ n. err json)
      (λ (r : ℕ). ok r) 92 (omega arith) (λ r h. cc)
