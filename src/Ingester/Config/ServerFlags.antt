-- ===== src/Ingester/Config/ServerFlags.antt =====
-- The server's flags, registered with changed defaults.
use blockstorageingestor.Prelude.{
  ◌≡◌, refl, sym, ◌∙◌, ◌≢◌, [], ◌∷◌, ◌++◌, map, append-nil, append_assoc, arith, if◌then◌else◌,
  ◌==◌, nat_eq, Str, codes, str_beq_iff, str_eq,
}
use blockstorageingestor.Go.Flags.{Flag, FlagSet, var, sort_flags}
use blockstorageingestor.Ingester.Parts.{Cortex}
use blockstorageingestor.Ingester.Config.{
  reregister, reregister_all, register_server_flags, min_time_between_pings,
  ping_without_stream_allowed,
}

module _ (C : Cortex) where
  -- the default of a server flag, as its text
  abbrev pub server_default : Str → C.server.Value → Str
  server_default name x =
      if name == min_time_between_pings
      then codes "10s"
      else if name == ping_without_stream_allowed
      then codes "true"
      else C.flag_text name x

  abbrev pub with_defaults : C.server.Value → FlagSet → FlagSet
  with_defaults x =
      map (λ f. record { name = f.name; usage = f.usage; def_value = server_default f.name x })

  -- What is relied on of the values of the server's flags: the two defaults are texts that their
  -- flags take and give back, and setting one flag leaves the texts of the others.
  pub record IsFlagValue : Type 0 where
    pub pings :
        (x : C.server.Value)
        → C.flag_text min_time_between_pings (C.set_flag min_time_between_pings (codes "10s") x)
          ≡ codes "10s"
    pub allowed :
        (x : C.server.Value)
        → C.flag_text ping_without_stream_allowed
            (C.set_flag ping_without_stream_allowed (codes "true") x)
          ≡ codes "true"
    pub others :
        (m n v : Str) (x : C.server.Value)
        → m ≢ n
        → C.flag_text m (C.set_flag n v x) ≡ C.flag_text m x

  module _ (L : IsFlagValue) where
    reregister-text :
        (f : Flag) (x : C.server.Value) (fs : FlagSet)
        → (reregister C f (x, fs)).1 ≡ var fs (server_default f.name x) f.name f.usage
    unfolding reregister
    reregister-text f x fs = ground (
      arith,
      L.pings x,
      L.allowed x,
      str_beq_iff f.name min_time_between_pings,
      str_beq_iff f.name ping_without_stream_allowed,
    )

    reregister-others :
        (f : Flag) (x : C.server.Value) (fs : FlagSet) (m : Str)
        → server_default m (reregister C f (x, fs)).0 ≡ server_default m x
    unfolding reregister
    reregister-others f x fs m = ground (
      arith,
      str_beq_iff f.name min_time_between_pings,
      str_beq_iff f.name ping_without_stream_allowed,
      str_beq_iff m min_time_between_pings,
      str_beq_iff m ping_without_stream_allowed,
      L.others m f.name (codes "10s") x,
      L.others m f.name (codes "true") x,
    )

    with_defaults-same :
        (x y : C.server.Value) (fs : FlagSet)
        → ((m : Str) → server_default m y ≡ server_default m x)
        → with_defaults y fs ≡ with_defaults x fs
    with_defaults-same x y [] h = refl
    with_defaults-same x y (f ∷ fs) h = rw (h f.name, with_defaults-same x y fs h) refl

    reregister_all-default :
        (throwaway : FlagSet) (x : C.server.Value) (fs : FlagSet)
        → (reregister_all C throwaway (x, fs)).1 ≡ fs ++ with_defaults x throwaway
    unfolding reregister_all var
    reregister_all-default [] x fs = sym (append-nil fs)
    reregister_all-default (f ∷ throwaway) x fs =
        let (y, gs) = reregister C f (x, fs) in
        reregister_all-default throwaway y gs
        ∙ rw (with_defaults-same x y throwaway (reregister-others f x fs), reregister-text f x fs)
            (append_assoc fs _ (with_defaults x throwaway))

    -- Registered with changed defaults, the server's flags are added to the set in the order of
    -- their names, each once and under its own name and usage; the default is the one that the
    -- server registers, and `10s` and `true` for the two that the service changes.
    pub register_server_flags_lem :
        (x : C.server.Value) (fs : FlagSet)
        → let (y, throwaway) = C.server.register_flags x [] in
          (register_server_flags C x fs).1 ≡ fs ++ with_defaults y (sort_flags throwaway)
    unfolding register_server_flags
    register_server_flags_lem x fs =
        let (y, throwaway) = C.server.register_flags x [] in
        reregister_all-default (sort_flags throwaway) y fs
