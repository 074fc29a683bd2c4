-- ===== src/Bitcoind/Sync/Classes.antt =====
-- What `sync_chainstate` (src/daemon/bitcoind/interface.rs) answers for each outpoint, told from the
-- cache and the list alone.
use revaultd.Prelude.{
  ℕ, ◌≡◌, ◌∙◌, refl, Bool, true, false, not, Option, none, some, List, [], ◌∷◌, ◌&&◌, leb, arith,
  if◌then◌else◌, ok, >>=-eq-ok, Bool-cases, Option-cases, inl, inr,
}
use revaultd.Database.Schema.{OutPoint, outpoint_eq}
use revaultd.Cache.{UtxoInfo, Cache, get}
use revaultd.Cache.Laws.{get-insert, get-remove, outpoint_eq_iff}
use revaultd.Bitcoind.Sync.{
  JsonUtxo, OnchainDescriptorState, has_label, classify, sync_entry, sync_loop, sync_chainstate,
}

abbrev has_outpoint : OutPoint → Option OutPoint → Bool
has_outpoint o none = false
has_outpoint o (some p) = outpoint_eq p o

-- An entry with the label, for the outpoint.
abbrev is_for : ℕ → OutPoint → JsonUtxo → Bool
is_for l o u = has_label l u.label && has_outpoint o u.outpoint

abbrev pub is_listed : ℕ → OutPoint → List JsonUtxo → Bool
is_listed l o [] = false
is_listed l o (u ∷ us) = if is_for l o u then true else is_listed l o us

-- The confirmations of the first entry for the outpoint.
abbrev pub first_confirmations : ℕ → OutPoint → List JsonUtxo → Option ℕ
first_confirmations l o [] = none
first_confirmations l o (u ∷ us) =
    if is_for l o u then u.confirmations else first_confirmations l o us

abbrev pub unconfirmed_info : Option ℕ → Option ℕ → Option UtxoInfo
unconfirmed_info (some v) (some a) =
    some (record { value = v; script_pubkey = a; is_confirmed = false })
unconfirmed_info _ _ = none

abbrev or_else : Option UtxoInfo → Option UtxoInfo → Option UtxoInfo
or_else none d = d
or_else (some i) d = some i

or_else_absent : (x : Option UtxoInfo) → or_else x none ≡ x
or_else_absent none = refl
or_else_absent (some i) = refl

-- The unconfirmed info of the last entry for the outpoint.
abbrev pub last_info : ℕ → OutPoint → List JsonUtxo → Option UtxoInfo
last_info l o [] = none
last_info l o (u ∷ us) =
    or_else (last_info l o us) (if is_for l o u then unconfirmed_info u.amount u.address else none)

abbrev fresh : ℕ → ℕ → UtxoInfo
fresh v a = record { value = v; script_pubkey = a; is_confirmed = false }

-- A cached entry that was unconfirmed and has the confirmations now.
abbrev pub newly_confirmed : ℕ → Option UtxoInfo → Option ℕ → Option UtxoInfo
newly_confirmed m (some i) (some c) = if not i.is_confirmed && leb m c then some i else none
newly_confirmed m none _ = none
newly_confirmed m (some i) none = none

newly_confirmed_absent : (m : ℕ) (x : Option UtxoInfo) → newly_confirmed m x none ≡ none
newly_confirmed_absent m none = refl
newly_confirmed_absent m (some i) = refl

-- One entry with the label.
sync_entry-new_spent :
    (m : ℕ) (u : JsonUtxo) (s s' : OnchainDescriptorState) (o : OutPoint)
    → sync_entry m u s ≡ ok s'
    → get s'.new_spent o ≡ (if has_outpoint o u.outpoint then none else get s.new_spent o)
unfolding sync_entry classify
sync_entry-new_spent m u s s' o h = elim (Option-cases u.outpoint) [
  | inl e ↦ ground arith
  | inr (p, e) ↦ elim (Option-cases (get s.new_spent p)) [
    | inl e' ↦ ground (arith, outpoint_eq_iff p o)
    | inr (i, e') ↦ ground (arith, get-remove p o s.new_spent)
  ]
]

sync_entry-new_conf :
    (m : ℕ) (u : JsonUtxo) (s s' : OnchainDescriptorState) (o : OutPoint)
    → sync_entry m u s ≡ ok s'
    → get s'.new_conf o ≡ (
        if has_outpoint o u.outpoint
        then or_else (newly_confirmed m (get s.new_spent o) u.confirmations) (get s.new_conf o)
        else get s.new_conf o)
unfolding sync_entry classify
sync_entry-new_conf m u s s' o h = elim (Option-cases u.outpoint) [
  | inl e ↦ ground arith
  | inr (p, e) ↦ elim (Option-cases (get s.new_spent p)) [
    | inl e' ↦ ground (arith, outpoint_eq_iff p o)
    | inr (i, e') ↦ ground (arith, get-insert p o i s.new_conf, outpoint_eq_iff p o)
  ]
]

sync_entry-new_unconf :
    (m : ℕ) (u : JsonUtxo) (s s' : OnchainDescriptorState) (o : OutPoint)
    → get s.new_spent o ≡ none
    → sync_entry m u s ≡ ok s'
    → get s'.new_unconf o
      ≡ or_else
          (if has_outpoint o u.outpoint then unconfirmed_info u.amount u.address else none)
          (get s.new_unconf o)
unfolding sync_entry classify
sync_entry-new_unconf m u s s' o hn h = elim (Option-cases u.outpoint) [
  | inl e ↦ ground arith
  | inr (p, e) ↦ elim (Option-cases (get s.new_spent p)) [
    | inl e' ↦ elim (Option-cases u.address) [
      | inl ea ↦ ground arith
      | inr (a, ea) ↦ elim (Option-cases u.amount) [
        | inl ev ↦ ground arith
        | inr (v, ev) ↦ ground (arith, get-insert p o (fresh v a) s.new_unconf)
      ]
    ]
    | inr (i, e') ↦ ground (arith, outpoint_eq_iff p o)
  ]
]

module _ (label min_conf : ℕ) (o : OutPoint) where
  loop-new_spent :
      (us : List JsonUtxo) (s s' : OnchainDescriptorState)
      → sync_loop label min_conf us s ≡ ok s'
      → get s'.new_spent o ≡ (if is_listed label o us then none else get s.new_spent o)
  unfolding sync_loop
  loop-new_spent [] s s' h = ground arith
  loop-new_spent (u ∷ us) s s' h = elim (Bool-cases (has_label label u.label)) [
    | inl e ↦
        let (t, e1, e2) =
          >>=-eq-ok (sync_entry min_conf u s) (sync_loop label min_conf us) {b = s'}
            (ground arith) in
        ground (arith, sync_entry-new_spent min_conf u s t o e1, loop-new_spent us t s' e2)
    | inr e ↦ ground (arith, loop-new_spent us s s' (ground arith))
  ]

  loop-new_conf :
      (us : List JsonUtxo) (s s' : OnchainDescriptorState)
      → sync_loop label min_conf us s ≡ ok s'
      → get s'.new_conf o
        ≡ or_else
            (newly_confirmed min_conf (get s.new_spent o) (first_confirmations label o us))
            (get s.new_conf o)
  unfolding sync_loop
  loop-new_conf [] s s' h = ground (arith, newly_confirmed_absent min_conf (get s.new_spent o))
  loop-new_conf (u ∷ us) s s' h = elim (Bool-cases (has_label label u.label)) [
    | inl e ↦
        let (t, e1, e2) =
          >>=-eq-ok (sync_entry min_conf u s) (sync_loop label min_conf us) {b = s'}
            (ground arith) in
        ground (
          arith,
          sync_entry-new_spent min_conf u s t o e1,
          sync_entry-new_conf min_conf u s t o e1,
          loop-new_conf us t s' e2,
        )
    | inr e ↦ ground (arith, loop-new_conf us s s' (ground arith))
  ]

  loop-new_unconf :
      (us : List JsonUtxo) (s s' : OnchainDescriptorState)
      → get s.new_spent o ≡ none
      → sync_loop label min_conf us s ≡ ok s'
      → get s'.new_unconf o ≡ or_else (last_info label o us) (get s.new_unconf o)
  unfolding sync_loop
  loop-new_unconf [] s s' hn h = ground arith
  loop-new_unconf (u ∷ us) s s' hn h = elim (Bool-cases (has_label label u.label)) [
    | inl e ↦
        let (t, e1, e2) =
          >>=-eq-ok (sync_entry min_conf u s) (sync_loop label min_conf us) {b = s'}
            (ground arith) in
        let gone : get t.new_spent o ≡ none =
          ground (arith, sync_entry-new_spent min_conf u s t o e1) in
        ground
          (arith, sync_entry-new_unconf min_conf u s t o hn e1, loop-new_unconf us t s' gone e2)
    | inr e ↦ ground (arith, loop-new_unconf us s s' hn (ground arith))
  ]

module _ (current : Cache) (label min_conf : ℕ) (utxos : List JsonUtxo) (s : OnchainDescriptorState)
    (done : sync_chainstate current label min_conf utxos ≡ ok s) (o : OutPoint) where
  -- When `sync_chainstate` succeeds, `new_spent` binds every outpoint that has no entry with the
  -- label in the list to what the cache binds it to, and no other outpoint.
  pub sync_chainstate-new_spent :
      get s.new_spent o ≡ (if is_listed label o utxos then none else get current o)
  unfolding sync_chainstate
  sync_chainstate-new_spent =
      loop-new_spent label min_conf o utxos
        (record { new_unconf = []; new_conf = []; new_spent = current }) s done

  -- When `sync_chainstate` succeeds, `new_conf` binds an outpoint exactly if the cache has it as
  -- unconfirmed and its first entry with the label has `min_conf` confirmations or more, and then
  -- to the info of the cache, which still says that it is unconfirmed.
  pub sync_chainstate-new_conf :
      get s.new_conf o
      ≡ newly_confirmed min_conf (get current o) (first_confirmations label o utxos)
  unfolding sync_chainstate get
  sync_chainstate-new_conf =
      loop-new_conf label min_conf o utxos
        (record { new_unconf = []; new_conf = []; new_spent = current }) s done
      ∙ or_else_absent
          (newly_confirmed min_conf (get current o) (first_confirmations label o utxos))

  -- When `sync_chainstate` succeeds and the cache does not have the outpoint, `new_unconf` binds it
  -- exactly if it has an entry with the label, to the unconfirmed info of the last such entry.
  pub sync_chainstate-new_unconf :
      get current o ≡ none → get s.new_unconf o ≡ last_info label o utxos
  unfolding sync_chainstate get
  sync_chainstate-new_unconf hn =
      loop-new_unconf label min_conf o utxos
        (record { new_unconf = []; new_conf = []; new_spent = current }) s hn done
      ∙ or_else_absent (last_info label o utxos)

  -- When `sync_chainstate` succeeds, `new_spent` binds every outpoint that has no entry with the label
  -- in the list to what the cache binds it to, and no other outpoint; and `new_conf` binds an outpoint
  -- exactly if the cache has it as unconfirmed and its first entry with the label has `min_conf`
  -- confirmations or more, and then to the info of the cache, which still says that it is unconfirmed.
  pub sync_chainstate_known :
      (get s.new_spent o ≡ (if is_listed label o utxos then none else get current o))
      × (get s.new_conf o
          ≡ newly_confirmed min_conf (get current o) (first_confirmations label o utxos))
  sync_chainstate_known = (sync_chainstate-new_spent, sync_chainstate-new_conf)
