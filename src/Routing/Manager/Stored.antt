-- ===== src/Routing/Manager/Stored.antt =====
-- The state that `mutate` of src-tauri/src/application/proxy_routing.rs stores is valid.
use veyra.Base.{◌≡◌, refl, sym, subst, List, Option, none, some, Result, ok, err}
use veyra.Base.Text.{Text}
use veyra.Domain.Types.{AppState}
use veyra.Domain.State.Valid.{IsValid}
use veyra.Routing.Input.{Url}
use veyra.Routing.Manager.{StateStore, Manager}
use veyra.Routing.Manager.Invariant.{Attempt, mutate_all, Keeps, mutate_all-Inv}

abbrev pub HoldsValid : Option AppState → Type 0
HoldsValid none = Unit
HoldsValid (some s) = IsValid s

-- The store keeps what was saved last; a save that fails leaves the old state, and a load never
-- replaces what is kept by an invalid state. `kept` is the state in the state file.
pub record KeepsState {Disk : Type 0} (S : StateStore Disk) (kept : Disk → Option AppState)
    : Type 0 where
  pub save_ok : (s : AppState) (d : Disk) → (S.save s d).0 ≡ ok tt → kept (S.save s d).1 ≡ some s
  pub save_err :
      (s : AppState) (d : Disk) (e : Unit {0})
      → (S.save s d).0 ≡ err e
      → kept (S.save s d).1 ≡ kept d
  pub load_valid : (d : Disk) → HoldsValid (kept d) → HoldsValid (kept (S.load_state d).1)

module _ {Disk : Type 0} (S : StateStore Disk) (parse : Text → Option Url)
    (kept : Disk → Option AppState) (laws : KeepsState S kept) where
  save-HoldsValid :
      (s : AppState) (d : Disk) (r : Result (Unit {0}) (Unit {0}))
      → (S.save s d).0 ≡ r
      → IsValid s
      → HoldsValid (kept d)
      → HoldsValid (kept (S.save s d).1)
  save-HoldsValid s d (ok tt) p w v = subst HoldsValid (sym (laws.save_ok s d p)) w
  save-HoldsValid s d (err e) p w v = subst HoldsValid (sym (laws.save_err s d e p)) v

  kept-Keeps : Keeps S (λ m. HoldsValid (kept m.disk))
  kept-Keeps = record {
    observed = λ c m v. v;
    saved = λ s m w v. save-HoldsValid s m.disk (S.save s m.disk).0 refl w v;
    loaded = λ m v. laws.load_valid m.disk v;
    tuple = λ a m v. v;
  }

  -- Over a store that keeps what was saved last and in which no load leaves an invalid state, any calls
  -- of `mutate` leave a valid state stored, if the one stored at first was valid.
  pub mutate_all-HoldsValid :
      (attempts : List Attempt) (m : Manager Disk)
      → HoldsValid (kept m.disk)
      → HoldsValid (kept (mutate_all S parse attempts m).disk)
  mutate_all-HoldsValid attempts m v =
      mutate_all-Inv S parse (λ n. HoldsValid (kept n.disk)) kept-Keeps attempts m v
