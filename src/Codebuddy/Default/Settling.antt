-- ===== src/Codebuddy/Default/Settling.antt =====
-- What a second pass of Default changes.
use text.Mathlib.Text.{◌==◌}
use mathlib.Core.Path.{ap}
use mathlib.Core.Option.{none-ne-some}
use work_script.Prelude.{
  ◌≡◌, refl, sym, ◌∙◌, ℤ, pos, eq_ℤ, String, Bool, true, false, Option, none, some, Bool-cases, inl,
  inr,
}
use work_script.Codebuddy.Types.{
  HadoopClusterSpec, NameNodeSpec, DataNodeSpec, JournalNodeSpec, ResourceManagerSpec,
  NodeManagerSpec, HBaseMasterSpec, HBaseRegionServerSpec, HBaseSpec, NameNodeHaConfig,
  ResourceManagerHaConfig, HaConfig, ClusterConfigSpec,
}
use work_script.Codebuddy.Default.{
  or_text, or_int, or_given, when_given, default, default_name_node, default_data_node,
  default_journal_node, default_resource_manager, default_node_manager, default_h_base,
  default_h_base_master, default_h_base_region_server, default_ha, default_name_node_ha,
  default_resource_manager_ha, default_cluster_config, is_name_node_ha, enable_journal_node,
  name_node_ha_of,
}

text_again : (s d : String) → or_text (or_text s d) d ≡ or_text s d
text_again s d = elim (Bool-cases (s == "")) [
  | inl e ↦ rw e (text_self d)
  | inr e ↦ rw e (rw e refl)
]
  where
    text_self : (d : String) → or_text d d ≡ d
    text_self d = elim (Bool-cases (d == "")) [ inl e ↦ rw e refl | inr e ↦ rw e refl ]

int_again : (n d : ℤ) → or_int (or_int n d) d ≡ or_int n d
int_again n d = elim (Bool-cases (eq_ℤ n (pos 0))) [
  | inl e ↦ rw e (int_self d)
  | inr e ↦ rw e (rw e refl)
]
  where
    int_self : (d : ℤ) → or_int d d ≡ d
    int_self d = elim (Bool-cases (eq_ℤ d (pos 0))) [ inl e ↦ rw e refl | inr e ↦ rw e refl ]

given_again : {A : Type 0} (o : Option A) (d : A) → or_given (or_given o d) d ≡ or_given o d
given_again none d = refl
given_again (some a) d = refl

module _ (c c' : HadoopClusterSpec) (p : c'.image ≡ c.image)
    (q : c'.image_pull_policy ≡ c.image_pull_policy) where
  name_node_again :
      (x : NameNodeSpec) → default_name_node c' (default_name_node c x) ≡ default_name_node c x
  unfolding default_name_node
  name_node_again x = simp (p, q, text_again, int_again, given_again)

  data_node_again :
      (x : DataNodeSpec) → default_data_node c' (default_data_node c x) ≡ default_data_node c x
  unfolding default_data_node
  data_node_again x = simp (p, q, text_again, int_again, given_again)

  journal_again :
      (x : JournalNodeSpec)
      → default_journal_node c' (default_journal_node c x) ≡ default_journal_node c x
  unfolding default_journal_node
  journal_again x = simp (p, q, text_again, int_again, given_again)

  resource_manager_again :
      (x : ResourceManagerSpec)
      → default_resource_manager c' (default_resource_manager c x) ≡ default_resource_manager c x
  unfolding default_resource_manager
  resource_manager_again x = simp (p, q, text_again, int_again, given_again)

  node_manager_again :
      (x : NodeManagerSpec)
      → default_node_manager c' (default_node_manager c x) ≡ default_node_manager c x
  unfolding default_node_manager
  node_manager_again x = simp (p, q, text_again, int_again, given_again)

  h_base_master_again :
      (x : HBaseMasterSpec)
      → default_h_base_master c' (default_h_base_master c x) ≡ default_h_base_master c x
  unfolding default_h_base_master
  h_base_master_again x = simp (p, text_again, int_again, given_again)

  h_base_region_server_again :
      (x : HBaseRegionServerSpec)
      → default_h_base_region_server c' (default_h_base_region_server c x)
        ≡ default_h_base_region_server c x
  unfolding default_h_base_region_server
  h_base_region_server_again x = simp (p, text_again, int_again, given_again)

when_again :
    {A : Type 0} (f g : A → A) (o : Option A)
    → ((x : A) → g (f x) ≡ f x)
    → when_given g (when_given f o) ≡ when_given f o
when_again f g none h = refl
when_again f g (some x) h = rw (h x) refl

h_base_again :
    (c c' : HadoopClusterSpec) (h : HBaseSpec)
    → c'.image ≡ c.image
    → c'.image_pull_policy ≡ c.image_pull_policy
    → default_h_base c' (default_h_base c h) ≡ default_h_base c h
unfolding default_h_base
h_base_again c c' h p q = elim (Bool-cases h.enabled) [
  | inl e ↦ simp (
    e,
    when_again (default_h_base_master c) (default_h_base_master c') h.master_spec
        (h_base_master_again c c' p q),
    when_again (default_h_base_region_server c) (default_h_base_region_server c')
        h.region_server_spec (h_base_region_server_again c c' p q),
  )
  | inr e ↦ simp e
]

name_node_ha_again :
    (x : NameNodeHaConfig) → default_name_node_ha (default_name_node_ha x) ≡ default_name_node_ha x
unfolding default_name_node_ha
name_node_ha_again x = elim (Bool-cases x.enabled) [ inl e ↦ simp (e, int_again) | inr e ↦ simp e ]

resource_manager_ha_again :
    (x : ResourceManagerHaConfig)
    → default_resource_manager_ha (default_resource_manager_ha x) ≡ default_resource_manager_ha x
unfolding default_resource_manager_ha
resource_manager_ha_again x = elim (Bool-cases x.enabled) [
  | inl e ↦ simp (e, int_again)
  | inr e ↦ simp e
]

ha_again : (x : HaConfig) → default_ha (default_ha x) ≡ default_ha x
unfolding default_ha
ha_again x = simp (
  when_again default_name_node_ha default_name_node_ha x.name_node_ha name_node_ha_again,
  when_again default_resource_manager_ha default_resource_manager_ha x.resource_manager_ha
      resource_manager_ha_again,
)

cluster_config_again :
    (x : ClusterConfigSpec)
    → default_cluster_config (default_cluster_config x) ≡ default_cluster_config x
unfolding default_cluster_config
cluster_config_again x = simp int_again

-- Defaulting does not turn the HA mode on or off.
pub name_node_ha_kept :
    (o : Option HaConfig) → is_name_node_ha (when_given default_ha o) ≡ is_name_node_ha o
unfolding is_name_node_ha default_ha default_name_node_ha
name_node_ha_kept none = refl
name_node_ha_kept (some ha) = mode ha.name_node_ha
  where
    mode :
        (o : Option NameNodeHaConfig)
        → name_node_ha_of (when_given default_name_node_ha o) ≡ name_node_ha_of o
    mode none = refl
    mode (some x) = elim (Bool-cases x.enabled) [ inl e ↦ simp e | inr e ↦ simp e ]

journal_node_again :
    (ha : Bool) (f g : JournalNodeSpec → JournalNodeSpec) (o : Option JournalNodeSpec)
    → enable_journal_node ha o ≡ o
    → ((x : JournalNodeSpec) → g (f x) ≡ f x)
    → enable_journal_node ha (when_given g (enable_journal_node ha (when_given f o)))
      ≡ enable_journal_node ha (when_given f o)
unfolding enable_journal_node
journal_node_again true f g none k h = absurd (none-ne-some _ (sym k))
journal_node_again true f g (some x) k h = rw (h x) refl
journal_node_again false f g o k h = when_again f g o h

enable_twice :
    (ha : Bool) (o : Option JournalNodeSpec)
    → enable_journal_node ha (enable_journal_node ha o) ≡ enable_journal_node ha o
unfolding enable_journal_node
enable_twice true none = refl
enable_twice true (some x) = refl
enable_twice false o = refl

-- Once the cluster has an image and a pull policy, and JournalNodes where it is in HA mode,
-- defaulting it twice is defaulting it once.
pub default-default :
    (s : HadoopClusterSpec)
    → (s.image == "") ≡ false
    → (s.image_pull_policy == "") ≡ false
    → enable_journal_node (is_name_node_ha s.ha) s.journal_node_spec ≡ s.journal_node_spec
    → default (default s) ≡ default s
unfolding default
default-default s p q j =
    let c = default s in
    let pi : c.image ≡ s.image = rw p refl in
    let pp : c.image_pull_policy ≡ s.image_pull_policy = rw q refl in
    simp (
      text_again,
      name_node_ha_kept s.ha,
      when_again (default_name_node s) (default_name_node c) s.name_node_spec
          (name_node_again s c pi pp),
      when_again (default_data_node s) (default_data_node c) s.data_node_spec
          (data_node_again s c pi pp),
      when_again (default_resource_manager s) (default_resource_manager c) s.resource_manager_spec
          (resource_manager_again s c pi pp),
      when_again (default_node_manager s) (default_node_manager c) s.node_manager_spec
          (node_manager_again s c pi pp),
      when_again (default_h_base s) (default_h_base c) s.h_base_spec
          (λ h. h_base_again s c h pi pp),
      when_again default_ha default_ha s.ha ha_again,
      when_again default_cluster_config default_cluster_config s.cluster_config
          cluster_config_again,
      journal_node_again (is_name_node_ha s.ha) (default_journal_node s) (default_journal_node c)
          s.journal_node_spec j (journal_again s c pi pp),
    )

filled : (s d : String) → (d == "") ≡ false → (or_text s d == "") ≡ false
filled s d n = elim (Bool-cases (s == "")) [ inl e ↦ rw e n | inr e ↦ rw e e ]

-- Defaulting a cluster three times is defaulting it twice.
pub default-settles : (s : HadoopClusterSpec) → default (default (default s)) ≡ default (default s)
unfolding default
default-settles s =
    default-default (default s) (filled s.image "apache/hadoop:3.4.1" refl)
      (filled s.image_pull_policy "IfNotPresent" refl)
      (ap (λ b. enable_journal_node b (default s).journal_node_spec) (name_node_ha_kept s.ha)
        ∙ enable_twice (is_name_node_ha s.ha)
            (when_given (default_journal_node s) s.journal_node_spec))
