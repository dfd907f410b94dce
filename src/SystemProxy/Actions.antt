-- ===== src/SystemProxy/Actions.antt =====
-- What the steps of src-tauri/src/platform/windows/system_proxy.rs do to the setting of the system
-- and to the stored recovery record, under the promises of the two ports.
use veyra.Base.{
  ◌≡◌, ◌⊎◌, inl, inr, refl, sym, ap, ◌∙◌, Option, none, some, Result, ok, err, map_err, arith,
}
use veyra.SystemProxy.{
  ProxySnapshot, ProxyRecoveryRecord, SystemProxyPort, ProxyRecoveryStore, RecoveryStoreError,
  SystemProxyError, Inner, Action, continue, ◌>>=◌, with_error, read_current, write_and_notify,
  clear_record,
}

module _ {S E A B : Type 0} where
  continue_ok :
      (o : Result A E × S) (f : A → Action S E B) (b : B) (s' : S)
      → continue o f ≡ (ok b, s')
      → (a : A) × (s : S) × (o ≡ (ok a, s)) × (f a s ≡ (ok b, s'))
  continue_ok (ok a, s) f b s' h = (a, s, refl, h)
  continue_ok (err e, s) f b s' h = cc

  -- A successful bind, taken apart.
  pub bind_ok :
      (m : Action S E A) (f : A → Action S E B) (s : S) (b : B) (s' : S)
      → (m >>= f) s ≡ (ok b, s')
      → (a : A) × (t : S) × (m s ≡ (ok a, t)) × (f a t ≡ (ok b, s'))
  bind_ok m f s b s' h = continue_ok (m s) f b s' h

  continue_err :
      (o : Result A E × S) (f : A → Action S E B) (e : E) (s' : S)
      → continue o f ≡ (err e, s')
      → (o ≡ (err e, s')) ⊎ ((a : A) × (s : S) × (o ≡ (ok a, s)) × (f a s ≡ (err e, s')))
  continue_err (ok a, s) f e s' h = inr (a, s, refl, h)
  continue_err (err x, s) f e s' h = inl (ground arith)

  -- A failed bind: either step failed.
  pub bind_err :
      (m : Action S E A) (f : A → Action S E B) (s : S) (e : E) (s' : S)
      → (m >>= f) s ≡ (err e, s')
      → (m s ≡ (err e, s')) ⊎ ((a : A) × (t : S) × (m s ≡ (ok a, t)) × (f a t ≡ (err e, s')))
  bind_err m f s e s' h = continue_err (m s) f e s' h

module _ {S E F A : Type 0} where
  pub mapped_ok :
      (r : Result A E) (t : S) (f : E → F) (a : A) (s' : S)
      → ◌≡◌ {A = Result A F × S} (map_err r f, t) (ok a, s')
      → (r ≡ ok a) × (t ≡ s')
  mapped_ok (ok x) t f a s' h = ground arith
  mapped_ok (err x) t f a s' h = cc

  pub with_error_ok :
      (m : Action S E A) (f : E → F) (s : S) (a : A) (s' : S)
      → with_error m f s ≡ (ok a, s')
      → ((m s).0 ≡ ok a) × ((m s).1 ≡ s')
  with_error_ok m f s a s' h = mapped_ok (m s).0 (m s).1 f a s' h

  pub mapped_err :
      (r : Result A E) (t : S) (f : E → F) (e : F) (s' : S)
      → ◌≡◌ {A = Result A F × S} (map_err r f, t) (err e, s')
      → (x : E) × (r ≡ err x) × (f x ≡ e) × (t ≡ s')
  mapped_err (ok x) t f e s' h = cc
  mapped_err (err x) t f e s' h = (x, refl, ground arith, ground arith)

  pub with_error_err :
      (m : Action S E A) (f : E → F) (s : S) (e : F) (s' : S)
      → with_error m f s ≡ (err e, s')
      → (x : E) × ((m s).0 ≡ err x) × (f x ≡ e) × ((m s).1 ≡ s')
  with_error_err m f s e s' h = mapped_err (m s).0 (m s).1 f e s' h

pub err_not_ok :
    {S E A : Type 0} (e : E) (s : S) (a : A) (s' : S)
    → ◌≡◌ {A = Result A E × S} (err e, s) (ok a, s')
    → ⊥
err_not_ok e s a s' h = ground arith

pub ok_not_err :
    {S E A : Type 0} (a : A) (s : S) (e : E) (s' : S)
    → ◌≡◌ {A = Result A E × S} (ok a, s) (err e, s')
    → ⊥
ok_not_err a s e s' h = ground arith

pub pair_path : {A B : Type 0} (o : A × B) {a : A} {b : B} → o.0 ≡ a → o.1 ≡ b → o ≡ (a, b)
pair_path (x, y) p q = cc

-- A read is truthful and changes nothing, nor does a notification. Of a write nothing is promised:
-- it is the read after it that counts.
pub record ReadsSetting {Os : Type 0} (P : SystemProxyPort Os) (setting : Os → ProxySnapshot)
    : Type 0 where
  pub read_ok :
      (s : Os) (v : ProxySnapshot) → (P.read_default_connection s).0 ≡ ok v → v ≡ setting s
  pub read_keeps : (s : Os) → setting (P.read_default_connection s).1 ≡ setting s

-- A stored record is what was saved last and not cleared; a save that fails leaves the old one.
pub record KeepsRecord {Disk : Type 0} (R : ProxyRecoveryStore Disk)
    (stored : Disk → Option ProxyRecoveryRecord) : Type 0 where
  pub load_ok : (d : Disk) (r : Option ProxyRecoveryRecord) → (R.load d).0 ≡ ok r → r ≡ stored d
  pub load_keeps : (d : Disk) → stored (R.load d).1 ≡ stored d
  pub save_ok :
      (r : ProxyRecoveryRecord) (d : Disk) → (R.save r d).0 ≡ ok tt → stored (R.save r d).1 ≡ some r
  pub save_err :
      (r : ProxyRecoveryRecord) (d : Disk) (e : RecoveryStoreError)
      → (R.save r d).0 ≡ err e
      → stored (R.save r d).1 ≡ stored d
  pub clear_ok : (d : Disk) → (R.clear d).0 ≡ ok tt → stored (R.clear d).1 ≡ none

module _ {Os Disk : Type 0} (P : SystemProxyPort Os) (R : ProxyRecoveryStore Disk)
    (setting : Os → ProxySnapshot) (stored : Disk → Option ProxyRecoveryRecord)
    (reads : ReadsSetting P setting) (keeps : KeepsRecord R stored) where
  -- The same setting and the same stored record.
  abbrev pub IsSame : Inner Os Disk → Inner Os Disk → Type 0
  IsSame i j = (setting j.port ≡ setting i.port) × (stored j.recovery ≡ stored i.recovery)

  pub read_current_ok :
      (i : Inner Os Disk) (v : ProxySnapshot) (j : Inner Os Disk)
      → read_current P R i ≡ (ok v, j)
      → (v ≡ setting i.port)
        × (setting j.port ≡ setting i.port)
        × (stored j.recovery ≡ stored i.recovery)
  unfolding read_current
  read_current_ok i v j h =
      let os = (P.read_default_connection i.port).1 in
      let (a, b) =
        mapped_ok (P.read_default_connection i.port).0 (record i { port = os })
          (λ _. SystemProxyError.read) v j h in
      (
        reads.read_ok i.port v a,
        ap (λ (k : Inner Os Disk). setting k.port) (sym b) ∙ reads.read_keeps i.port,
        ap (λ (k : Inner Os Disk). stored k.recovery) (sym b),
      )

  pub read_current_err :
      (i : Inner Os Disk) (e : SystemProxyError) (j : Inner Os Disk)
      → read_current P R i ≡ (err e, j)
      → IsSame i j
  unfolding read_current
  read_current_err i e j h =
      let os = (P.read_default_connection i.port).1 in
      let (_, _, _, b) =
        mapped_err (P.read_default_connection i.port).0 (record i { port = os })
          (λ _. SystemProxyError.read) e j h in
      (
        ap (λ (k : Inner Os Disk). setting k.port) (sym b) ∙ reads.read_keeps i.port,
        ap (λ (k : Inner Os Disk). stored k.recovery) (sym b),
      )

  -- The same through `map_err`.
  pub read_with_ok :
      {F : Type 0} (f : SystemProxyError → F) (i : Inner Os Disk) (v : ProxySnapshot)
      (j : Inner Os Disk)
      → with_error (read_current P R) f i ≡ (ok v, j)
      → (v ≡ setting i.port)
        × (setting j.port ≡ setting i.port)
        × (stored j.recovery ≡ stored i.recovery)
  read_with_ok f i v j h =
      let (a, b) = with_error_ok (read_current P R) f i v j h in
      read_current_ok i v j (pair_path (read_current P R i) a b)

  pub clear_record_ok :
      {E : Type 0} (e : E) (i j : Inner Os Disk)
      → clear_record P R e i ≡ (ok tt, j)
      → (setting j.port ≡ setting i.port) × (stored j.recovery ≡ none)
  unfolding clear_record
  clear_record_ok e i j h =
      let disk = (R.clear i.recovery).1 in
      let (a, b) =
        mapped_ok (R.clear i.recovery).0 (record i { recovery = disk }) (λ _. e) tt j h in
      (
        ap (λ (k : Inner Os Disk). setting k.port) (sym b),
        ap (λ (k : Inner Os Disk). stored k.recovery) (sym b) ∙ keeps.clear_ok i.recovery a,
      )

  -- Writing and notifying never touches the stored record.
  pub write_keeps :
      (state : ProxySnapshot) (i : Inner Os Disk)
      → (write_and_notify P R state i).1.recovery ≡ i.recovery
  unfolding write_and_notify
  write_keeps state i = ground arith
