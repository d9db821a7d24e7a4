-- ===== src/IntranetNets/Listed.antt =====
-- `src/intranet_nets.rs`: the lists by family of address against the list of the names.
use wp_knowledge.Base.{
  ◌≡◌, refl, ◌∙◌, Bool, true, false, ◌||◌, List, [], ◌∷◌, ◌++◌, Option, none, some, arith, Bytes,
  if◌then◌else◌,
}
use wp_knowledge.Base.Text.{trim}
use wp_knowledge.IntranetNets.{
  IntranetMergeMode, IntranetNetsConf, IpAddr, IpNet, Ipnet, IntranetNetsSet, Globals,
  default_intranet_nets, any, unmapped, split_nets, filter_map, net_count, set_intranet_nets_conf,
  builtin, merge, contains, loaded, force, is_intranet, init_intranet_nets,
  check_intranet_nets_config,
}

any-append :
    {A : Type 0} (p : A → Bool) (xs ys : List A) → any p (xs ++ ys) ≡ (any p xs || any p ys)
unfolding any
any-append p [] ys = refl
any-append p (x ∷ xs) ys = ground (arith, any-append p xs ys)

-- What can happen to the state of the module.
pub data Step : Type 0 where
  inject : Option IntranetNetsConf → Step
  judge : IpAddr → Step
  start : Step

module _ {V4 V6 : Type 0} (ipnet : Ipnet V4 V6) where
  unfoldable covers : IpNet V4 V6 → IpAddr → Bool
  covers (IpNet.v4 n) (IpAddr.v4 a) = ipnet.contains_v4 n a
  covers (IpNet.v6 n) (IpAddr.v6 a) = ipnet.contains_v6 n a
  covers (IpNet.v4 n) (IpAddr.v6 a) = false
  covers (IpNet.v6 n) (IpAddr.v4 a) = false

  unfoldable covered_by : Option (IpNet V4 V6) → IpAddr → Bool
  unfolding covers
  covered_by none ip = false
  covered_by (some net) ip = covers net ip

  -- A name of the list is that of a network with the address.
  unfoldable is_listed : (Bytes → Option (IpNet V4 V6)) → List Bytes → IpAddr → Bool
  unfolding covered_by any
  is_listed f names ip = any (λ s. covered_by (f s) ip) names

  -- What a configuration means.
  unfoldable pub is_meant : Option IntranetNetsConf → IpAddr → Bool
  unfolding is_listed default_intranet_nets trim
  is_meant none ip = is_listed ipnet.from_str default_intranet_nets ip
  is_meant (some conf) ip =
      let default = is_listed ipnet.from_str default_intranet_nets ip in
      let own = is_listed (λ c. ipnet.from_str (trim c)) conf.nets ip in
      if conf.enabled
      then elim conf.mode [
        | IntranetMergeMode.add ↦ default || own
        | IntranetMergeMode.replace ↦ own
      ]
      else default

  unfoldable pub perform : Step → Globals V4 V6 → Globals V4 V6
  unfolding set_intranet_nets_conf is_intranet init_intranet_nets
  perform (Step.inject conf) g = set_intranet_nets_conf conf g
  perform (Step.judge ip) g = (is_intranet ipnet ip g).0
  perform Step.start g = (init_intranet_nets ipnet g).0

  unfoldable pub run : List Step → Globals V4 V6 → Globals V4 V6
  unfolding perform
  run [] g = g
  run (s ∷ steps) g = run steps (perform s g)

  contains-cons :
      (net : IpNet V4 V6) (nets : List (IpNet V4 V6)) (ip : IpAddr)
      → contains ipnet (split_nets (net ∷ nets)) ip
        ≡ (covers net ip || contains ipnet (split_nets nets) ip)
  unfolding contains split_nets covers any
  contains-cons (IpNet.v4 n) nets (IpAddr.v4 a) = refl
  contains-cons (IpNet.v4 n) nets (IpAddr.v6 a) = refl
  contains-cons (IpNet.v6 n) nets (IpAddr.v4 a) = refl
  contains-cons (IpNet.v6 n) nets (IpAddr.v6 a) = refl

  contains-none : (ip : IpAddr) → contains ipnet (split_nets []) ip ≡ false
  unfolding contains split_nets any
  contains-none (IpAddr.v4 a) = refl
  contains-none (IpAddr.v6 a) = refl

  contains-split_nets :
      (f : Bytes → Option (IpNet V4 V6)) (names : List Bytes) (ip : IpAddr)
      → contains ipnet (split_nets (filter_map f names)) ip ≡ is_listed f names ip
  unfolding filter_map is_listed covered_by any
  contains-split_nets f [] ip = contains-none ip
  contains-split_nets f (s ∷ names) ip = go (f s) refl (contains-split_nets f names ip)
    where
      go :
          (r : Option (IpNet V4 V6))
          → f s ≡ r
          → contains ipnet (split_nets (filter_map f names)) ip ≡ is_listed f names ip
          → contains ipnet (split_nets (filter_map f (s ∷ names))) ip ≡ is_listed f (s ∷ names) ip
      go none e ih = ground arith
      go (some net) e ih = ground (arith, contains-cons net (filter_map f names) ip)

  contains-append :
      (s t : IntranetNetsSet V4 V6) (ip : IpAddr)
      → contains ipnet
          (record { v4_nets = s.v4_nets ++ t.v4_nets; v6_nets = s.v6_nets ++ t.v6_nets })
          ip
        ≡ (contains ipnet s ip || contains ipnet t ip)
  unfolding contains
  contains-append s t (IpAddr.v4 a) = any-append (λ n. ipnet.contains_v4 n a) s.v4_nets t.v4_nets
  contains-append s t (IpAddr.v6 a) = any-append (λ n. ipnet.contains_v6 n a) s.v6_nets t.v6_nets

  contains-loaded :
      (conf : Option IntranetNetsConf) (ip : IpAddr)
      → contains ipnet (loaded ipnet conf) ip ≡ is_meant conf ip
  unfolding loaded builtin is_meant merge
  contains-loaded none ip = contains-split_nets ipnet.from_str default_intranet_nets ip
  contains-loaded (some conf) ip = go conf.mode refl
    where
      own : List (IpNet V4 V6)
      own = filter_map (λ c. ipnet.from_str (trim c)) conf.nets

      go :
          (m : IntranetMergeMode)
          → conf.mode ≡ m
          → contains ipnet (loaded ipnet (some conf)) ip ≡ is_meant (some conf) ip
      go IntranetMergeMode.add e = ground (
        arith,
        contains-split_nets ipnet.from_str default_intranet_nets ip,
        contains-split_nets (λ c. ipnet.from_str (trim c)) conf.nets ip,
        contains-append (builtin ipnet) (split_nets own) ip,
      )
      go IntranetMergeMode.replace e = ground (
        arith,
        contains-split_nets ipnet.from_str default_intranet_nets ip,
        contains-split_nets (λ c. ipnet.from_str (trim c)) conf.nets ip,
      )

  set-perform :
      (s : Step) (g : Globals V4 V6) (set : IntranetNetsSet V4 V6)
      → g.set ≡ some set
      → (perform s g).set ≡ some set
  unfolding perform force
  set-perform (Step.inject conf) g set e = e
  set-perform (Step.judge ip) g set e = ground arith
  set-perform Step.start g set e = ground arith

  set-run :
      (steps : List Step) (g : Globals V4 V6) (set : IntranetNetsSet V4 V6)
      → g.set ≡ some set
      → (run steps g).set ≡ some set
  unfolding run
  set-run [] g set e = e
  set-run (s ∷ steps) g set e = set-run steps (perform s g) set (set-perform s g set e)

  set-is_intranet :
      (ip : IpAddr) (g : Globals V4 V6)
      → g.set ≡ none
      → (is_intranet ipnet ip g).0.set ≡ some (loaded ipnet g.conf)
  unfolding is_intranet force
  set-is_intranet ip g e = ground arith

  is_intranet-loaded :
      (ip : IpAddr) (g : Globals V4 V6) (set : IntranetNetsSet V4 V6)
      → g.set ≡ some set
      → (is_intranet ipnet ip g).1 ≡ contains ipnet set (unmapped ip)
  unfolding is_intranet force
  is_intranet-loaded ip g set e = ground arith

  -- If the set has not been loaded, then after a first judgement and any further injections,
  -- judgements and starts an address is of the intranet exactly if the configuration before the first
  -- judgement means it, a mapped address standing for the one that it maps: an address is looked up
  -- among all names of networks, and those that are not networks, or of the other family, do not count.
  pub is_intranet-run :
      (first ip : IpAddr) (steps : List Step) (g : Globals V4 V6)
      → g.set ≡ none
      → (is_intranet ipnet ip (run steps (is_intranet ipnet first g).0)).1
        ≡ is_meant g.conf (unmapped ip)
  is_intranet-run first ip steps g e =
      is_intranet-loaded ip _ (loaded ipnet g.conf)
        (set-run steps _ (loaded ipnet g.conf) (set-is_intranet first g e))
      ∙ contains-loaded g.conf (unmapped ip)

  -- If the set has not been loaded and the configuration is switched off, init_intranet_nets counts the
  -- default networks alone and says that the configuration is in effect, while
  -- check_intranet_nets_config says that it is not.
  pub init_intranet_nets_disabled :
      (conf : IntranetNetsConf) (g : Globals V4 V6)
      → g.set ≡ none
      → g.conf ≡ some conf
      → conf.enabled ≡ false
      → ((init_intranet_nets ipnet g).1
          ≡ record { external = true; count = net_count (builtin ipnet) })
        × (check_intranet_nets_config (some conf) ≡ none)
  unfolding init_intranet_nets check_intranet_nets_config force loaded
  init_intranet_nets_disabled conf g e f off = (ground arith, ground arith)
