-- ===== src/SystemProxy/Snapshots.antt =====
-- Semantic equality of proxy snapshots (src-tauri/src/platform/windows/system_proxy.rs) is the
-- equality of their normal forms.
use veyra.Base.{
  ◌≡◌, ◌↔◌, refl, sym, ◌∙◌, subst, List, Option, Bool, true, ◌&&◌, &&-true, true_and, Eq, ◌==◌,
  option_eq, list_eq, bool_eq,
}
use veyra.Base.Text.{Text, text_eq}
use veyra.SystemProxy.{ProxySnapshot, normalized_optional, normalized_bypass, semantically_equals}

-- What the adapter compares of a snapshot.
pub record NormalSnapshot : Type 0 where
  pub direct : Bool
  pub proxy_enabled : Bool
  pub auto_config_enabled : Bool
  pub auto_detect : Bool
  pub server : Option Text
  pub bypass : List Text
  pub auto_config_url : Option Text

abbrev pub normal : ProxySnapshot → NormalSnapshot
normal s = record {
  direct = s.direct;
  proxy_enabled = s.proxy_enabled;
  auto_config_enabled = s.auto_config_enabled;
  auto_detect = s.auto_detect;
  server = normalized_optional s.proxy_server;
  bypass = normalized_bypass s.proxy_bypass;
  auto_config_url = normalized_optional s.auto_config_url;
}

beq_of : {A : Type 0} ⦃e : Eq A⦄ (a b : A) → a ≡ b → (a == b) ≡ true
beq_of ⦃e⦄ a b h = (e.beq_iff a b).1 h

of_beq : {A : Type 0} ⦃e : Eq A⦄ (a b : A) → (a == b) ≡ true → a ≡ b
of_beq ⦃e⦄ a b h = (e.beq_iff a b).0 h

sem_sound : (a b : ProxySnapshot) → semantically_equals a b ≡ true → normal a ≡ normal b
unfolding semantically_equals
sem_sound a b h =
    let (h6, g) =
      &&-true _ (normalized_optional a.auto_config_url == normalized_optional b.auto_config_url)
        h in
    let (h5, f) =
      &&-true _ (normalized_bypass a.proxy_bypass == normalized_bypass b.proxy_bypass) h6 in
    let (h4, e) =
      &&-true _ (normalized_optional a.proxy_server == normalized_optional b.proxy_server) h5 in
    let (h3, d) = &&-true _ (a.auto_detect == b.auto_detect) h4 in
    let (h2, c) = &&-true _ (a.auto_config_enabled == b.auto_config_enabled) h3 in
    let (p, q) = &&-true (a.direct == b.direct) (a.proxy_enabled == b.proxy_enabled) h2 in
    cc (
      of_beq a.direct b.direct p,
      of_beq a.proxy_enabled b.proxy_enabled q,
      of_beq a.auto_config_enabled b.auto_config_enabled c,
      of_beq a.auto_detect b.auto_detect d,
      of_beq (normalized_optional a.proxy_server) (normalized_optional b.proxy_server) e,
      of_beq (normalized_bypass a.proxy_bypass) (normalized_bypass b.proxy_bypass) f,
      of_beq (normalized_optional a.auto_config_url) (normalized_optional b.auto_config_url) g,
    )

abbrev sem_at : NormalSnapshot → NormalSnapshot → Bool
sem_at a b =
    a.direct == b.direct
    && a.proxy_enabled == b.proxy_enabled
    && a.auto_config_enabled == b.auto_config_enabled
    && a.auto_detect == b.auto_detect
    && a.server == b.server
    && a.bypass == b.bypass
    && a.auto_config_url == b.auto_config_url

sem_at_refl : (n : NormalSnapshot) → sem_at n n ≡ true
sem_at_refl n =
    true_and
      (true_and
        (true_and
          (true_and
            (true_and
              (true_and (beq_of n.direct n.direct refl)
                (beq_of n.proxy_enabled n.proxy_enabled refl))
              (beq_of n.auto_config_enabled n.auto_config_enabled refl))
            (beq_of n.auto_detect n.auto_detect refl))
          (beq_of n.server n.server refl))
        (beq_of n.bypass n.bypass refl))
      (beq_of n.auto_config_url n.auto_config_url refl)

sem_complete : (a b : ProxySnapshot) → normal a ≡ normal b → semantically_equals a b ≡ true
unfolding semantically_equals
sem_complete a b h = subst (λ k. sem_at (normal a) k ≡ true) h (sem_at_refl (normal a))

-- Two snapshots are semantically equal exactly when their normal forms are equal.
semantically_equals_iff :
    (a b : ProxySnapshot) → (semantically_equals a b ≡ true) ↔ (normal a ≡ normal b)
semantically_equals_iff a b = (sem_sound a b, sem_complete a b)

pub sem_refl : (a : ProxySnapshot) → semantically_equals a a ≡ true
sem_refl a = sem_complete a a refl

pub sem_symm :
    (a b : ProxySnapshot) → semantically_equals a b ≡ true → semantically_equals b a ≡ true
sem_symm a b h = sem_complete b a (sym (sem_sound a b h))

pub sem_trans :
    (a b c : ProxySnapshot)
    → semantically_equals a b ≡ true
    → semantically_equals b c ≡ true
    → semantically_equals a c ≡ true
sem_trans a b c h k = sem_complete a c (sem_sound a b h ∙ sem_sound b c k)
