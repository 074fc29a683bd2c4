-- ===== src/Api/Tests.antt =====
-- A daemon that is both a manager and a stakeholder, alone, with one vault and servers that agree.
mod Stakeholder
mod Manager
mod Fetcher
use revaultd.Prelude.{ℕ, zero, suc, Bool, Option, true, false, none, some, List, [], ◌∷◌, ok, ◌==◌}
use revaultd.Status.{VaultStatus}
use revaultd.Sigs.{insert, PubKey, Bytes, SigMap}
use revaultd.Database.Schema.{
  Txid, OutPoint, Psbt, SpendPsbt, DbVault, DbTransaction, TransactionType, unvault, cancel,
  emergency, unvault_emergency,
}
use revaultd.Control.Signatures.{SigHashType, all, all_plus_anyone_can_pay, Secp}
use revaultd.Control.Session.{Session, Net, Daemon}
use revaultd.Control.Coordinator.{Txs}

abbrev pub flag_of : SigHashType → ℕ
flag_of all = 1
flag_of all_plus_anyone_can_pay = 129
flag_of _ = 2

abbrev pub byte_of : Bytes → Option ℕ
byte_of [] = none
byte_of (b ∷ _) = some b

-- A signature is one byte, which every key accepts.
abbrev pub curve : Secp
curve = record {
  as_u8 = flag_of;
  signature_hash = λ _ _. some 7;
  spend_signature_hash = λ _ _ _. some 8;
  from_der = byte_of;
  verify = λ _ _ _. true;
  derive = λ xpub _. xpub;
}

abbrev pub signed : ℕ → Txid → Psbt
signed flag t = record {
  txid = t;
  wtxid = t;
  inputs = 1;
  is_finalized = false;
  partial_sigs = (3, 48 ∷ flag ∷ []) ∷ [];
}

abbrev pub point : OutPoint
point = record { txid = 1; vout = 0 }

abbrev pub vault : VaultStatus → DbVault
vault s = record {
  id = 1;
  wallet_id = 1;
  status = s;
  blockheight = 100;
  deposit_outpoint = point;
  amount = 500000;
  derivation_index = 0;
  received_at = 9;
  updated_at = 9;
  spend_txid = none;
}

abbrev pub row : ℕ → TransactionType → Txid → DbTransaction
row i t txid = record {
  id = i;
  vault_id = 1;
  tx_type = t;
  psbt = record { txid = txid; wtxid = txid; inputs = 1; is_finalized = false; partial_sigs = [] };
  is_fully_signed = true;
}

-- A Spend of the vault's Unvault, which the manager has signed.
abbrev pub spend : SpendPsbt
spend = record {
  txid = 40;
  unvault_txids = 11 ∷ [];
  is_finalized = false;
  input_sigs = ((4, 48 ∷ 1 ∷ []) ∷ []) ∷ [];
}

-- as the cosigning server gives it back
abbrev pub cosigned : SpendPsbt
cosigned = record spend { input_sigs = ((9, 48 ∷ 1 ∷ []) ∷ []) ∷ [] }

abbrev pub added : ℕ → PubKey → Bytes → List SigMap → List SigMap
added i key sig [] = []
added zero key sig (sigs ∷ inputs) = insert key sig sigs ∷ inputs
added (suc i) key sig (sigs ∷ inputs) = sigs ∷ added i key sig inputs

abbrev pub session : VaultStatus → Session
session s = record {
  db = record {
    now = 50;
    version = 0 ∷ [];
    tips = [];
    wallets = [];
    vaults = vault s ∷ [];
    presigned =
        row 1 unvault 11 ∷ row 2 cancel 12 ∷ row 3 emergency 13 ∷ row 4 unvault_emergency 14 ∷ [];
    spend_inputs = record { id = 1; unvault_id = 1; spend_id = 1 } ∷ [];
    spends = record { id = 1; psbt = spend; broadcasted = none } ∷ [];
  };
  log = [];
}

abbrev pub servers : Net
servers = record {
  connect = λ _. true;
  sig_ack = λ _. some true;
  signatures = λ _. some ((3, 48) ∷ []);
  sign_result = λ _. some (some cosigned);
  set_spend_ack = λ _. some true;
  wallet_tx = λ _. some none;
  broadcasted = λ _. some (ok tt);
}

abbrev pub daemon : Daemon
daemon = record {
  our_stk_xpub = some 3;
  our_man_xpub = some 4;
  deposit_xpubs = 3 ∷ [];
  unvault_keys = (3, false) ∷ (4, false) ∷ (9, true) ∷ [];
  unvault_managers_threshold = none;
  coordinator_host = 100;
  cosigs = some (200 ∷ []);
  watchtowers = none;
  current_unused_index = 0;
}

abbrev pub txs : Txs
txs = record {
  finalize = λ tx. some (record tx { is_finalized = true });
  finalize_spend = λ tx. some (record tx { is_finalized = true });
  add_signature =
      λ tx key sig. some (record tx { partial_sigs = insert key (sig ∷ 129 ∷ []) tx.partial_sigs });
  add_spend_signature =
      λ tx i key sig. some (record tx { input_sigs = added i key (sig ∷ 1 ∷ []) tx.input_sigs });
  max_satisfaction_weight = 300;
  message_len = λ _ _. 900;
  noise_plaintext_max_size = 65535;
}

abbrev pub not_final : Psbt → Bool
not_final tx = false
