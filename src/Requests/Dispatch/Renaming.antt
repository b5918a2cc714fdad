-- ===== src/Requests/Dispatch/Renaming.antt =====
-- What a `SetNickname` leaves in memory, on the disk and in the clients' queues.
use lin_sight.Base.{ℕ, ◌≡◌, sym, subst, ◌⊎◌, inl, inr, List, Option, none, some, Text, Option-cases}
use lin_sight.Base.Keys.{text_eq}
use lin_sight.Core.Hardware.{
  DeviceKey, Checked-cases, ok, err, KeyError, NicknameError, try_new_key,
}
use lin_sight.Messages.{Reply, ResponsePayload, response, SensorInfo, set_nickname}
use lin_sight.Registry.{Registry, RegistryError, revalidated, nicknames_snapshot, device_label_for}
use lin_sight.Registry
use lin_sight.Outbound.{broadcast_sensor_list}
use lin_sight.Requests.{Env, Shared, Conn, respond, with_registry}
use lin_sight.Requests.Info.{build_sensor_info_list}
use lin_sight.Requests.Nickname.{
  answer_nickname, apply_nickname, save_nickname, confirm_nickname, tell_everyone,
}
use lin_sight.Requests.Dispatch.{handle_request}
use lin_sight.Requests.Dispatch.Answered.{conn_after}

module _ {F V W : Type 0} (env : Env F V W) (c : Conn F V W) (req_id : ℕ) (device_key : Text)
    (value : Option Text) where
  -- Why nothing happens: a malformed key, a nickname that is not valid, or an unknown device.
  abbrev pub Refused : Type 0
  Refused =
      ((e : KeyError) × (try_new_key device_key ≡ err e))
      ⊎ ((e : NicknameError) × (revalidated value ≡ err e))
      ⊎ ((key : DeviceKey) × (n : Option Text) × (e : RegistryError) × (try_new_key device_key
            ≡ ok key)
          × (revalidated value ≡ ok n)
          × (Registry.set_nickname c.shared.registry key n ≡ err e))

  -- The registry takes the validated nickname.
  abbrev pub Renames : Registry → Option Text → Type 0
  Renames r n =
      (key : DeviceKey) × (try_new_key device_key ≡ ok key)
      × (revalidated value ≡ ok n)
      × (Registry.set_nickname c.shared.registry key n ≡ ok r)

  abbrev pub confirmation : Option Text → Option W
  confirmation n =
      env.write c.writer (response req_id (Reply.ok (ResponsePayload.nickname_set device_key n)))

  abbrev pub catalogue : Registry → List (SensorInfo F V)
  catalogue r = build_sensor_info_list env.plugin_id_for r c.shared.scheduler.host

  -- What the sessions share afterwards, and why.
  pub data Renaming : Shared F V → Type 0 where
    unchanged : Refused → Renaming c.shared
    unsaved :
        (r : Registry) (n : Option Text) (e : Text)
        → Renames r n
        → env.save_nicknames (nicknames_snapshot r) ≡ some e
        → Renaming (record c.shared { registry = r })
    untold :
        (r : Registry) (n : Option Text)
        → Renames r n
        → env.save_nicknames (nicknames_snapshot r) ≡ none
        → confirmation n ≡ none
        → Renaming (record c.shared { registry = r; saved_nicknames = some (nicknames_snapshot r) })
    told :
        (r : Registry) (n : Option Text) (w : W)
        → Renames r n
        → env.save_nicknames (nicknames_snapshot r) ≡ none
        → confirmation n ≡ some w
        → Renaming (record c.shared {
          registry = r;
          saved_nicknames = some (nicknames_snapshot r);
          clients = broadcast_sensor_list c.shared.clients (catalogue r);
        })

  respond-shared :
      (d : Conn F V W) (reply : Reply F V)
      → (conn_after (respond env d req_id reply)).shared ≡ d.shared
  unfolding respond
  respond-shared d reply = elim (Option-cases (env.write d.writer (response req_id reply))) [
    | inl lost ↦ simp (respond, lost)
    | inr (w, wrote) ↦ simp (respond, wrote)
  ]

  refused-Renaming :
      (reply : Reply F V) → Refused → Renaming (conn_after (respond env c req_id reply)).shared
  refused-Renaming reply why = subst Renaming (sym (respond-shared c reply)) (unchanged why)

  save_nickname-Renaming :
      (r : Registry) (n : Option Text)
      → Renames r n
      → Renaming (conn_after (save_nickname env (with_registry r c) req_id device_key n)).shared
  unfolding save_nickname confirm_nickname respond tell_everyone
  save_nickname-Renaming r n renames =
      elim (Option-cases (env.save_nicknames (nicknames_snapshot r))) [
        | inr (e, failure) ↦
            simp (save_nickname, failure)
              (subst Renaming (sym (respond-shared (with_registry r c) _))
                (unsaved r n e renames failure))
        | inl saved ↦ elim (Option-cases (confirmation n)) [
          | inl lost ↦
              simp (save_nickname, saved, confirm_nickname, respond, lost)
                (untold r n renames saved lost)
          | inr (w, wrote) ↦
              simp (save_nickname, saved, confirm_nickname, respond, wrote)
                (told r n w renames saved wrote)
        ]
      ]

  -- A `SetNickname` that is refused changes nothing that the sessions share; one that is accepted sets
  -- the validated nickname in the registry, and then either could not be saved, or is on the disk
  -- with all the other nicknames and could not be confirmed, or is on the disk, confirmed, and
  -- broadcast to the clients in the catalogue of the new registry; nothing else changes.
  pub handle_request-Renaming :
      Renaming (conn_after (handle_request env c req_id (set_nickname device_key value))).shared
  unfolding handle_request answer_nickname apply_nickname
  handle_request-Renaming = elim (Checked-cases (try_new_key device_key)) [
    | inr (e, bad) ↦ simp (answer_nickname, bad) (refused-Renaming _ (inl (e, bad)))
    | inl (key, good) ↦ elim (Checked-cases (revalidated value)) [
      | inr (e, bad) ↦ simp (answer_nickname, good, bad) (refused-Renaming _ (inr (inl (e, bad))))
      | inl (n, fine) ↦ elim (Checked-cases (Registry.set_nickname c.shared.registry key n)) [
        | inr (e, unknown) ↦
            simp (answer_nickname, good, fine, apply_nickname, unknown)
              (refused-Renaming _ (inr (inr (key, n, e, good, fine, unknown))))
        | inl (r, renamed) ↦
            simp (answer_nickname, good, fine, apply_nickname, renamed)
              (save_nickname-Renaming r n (key, good, fine, renamed))
      ]
    ]
  ]
