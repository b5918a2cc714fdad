-- ===== src/Requests/Nickname.antt =====
-- `SetNickname`: validated, applied, saved, confirmed, and then told to every client.
use lin_sight.Base.{ℕ, ◌++◌, Option, none, some, Text, codes}
use lin_sight.Core.Hardware.{DeviceKey, ok, err, try_new_key}
use lin_sight.Messages.{Reply, ResponsePayload, invalid_nickname, unknown_device, io}
use lin_sight.Registry.{Registry, RegistryError, set_nickname, nicknames_snapshot, revalidated}
use lin_sight.Registry
use lin_sight.Outbound.{broadcast_sensor_list}
use lin_sight.Requests.{
  Env, Conn, Served, served, failed, panicked, refused, respond, with_registry,
}
use lin_sight.Requests.Info.{build_sensor_info_list}

module _ {F V W : Type 0} (env : Env F V W) where
  unfoldable pub registry_message : RegistryError → Text
  registry_message (Registry.unknown_device key) = codes "unknown hardware device: " ++ key
  registry_message (Registry.invalid_nickname e) =
      codes "invalid nickname: " ++ env.nickname_error e

  -- The broadcast that follows a confirmation, with the labels of now.
  unfoldable pub tell_everyone : Conn F V W → Conn F V W
  unfolding broadcast_sensor_list build_sensor_info_list
  tell_everyone c =
      let s = c.shared in
      let infos = build_sensor_info_list env.plugin_id_for s.registry s.scheduler.host in
      record c { shared = record s { clients = broadcast_sensor_list s.clients infos } }

  unfoldable pub confirm_nickname : Conn F V W → ℕ → Text → Option Text → Served F V W
  unfolding respond tell_everyone
  confirm_nickname c req_id device_key normalized =
      elim (respond env c req_id (Reply.ok (ResponsePayload.nickname_set device_key normalized))) [
        | failed c' ↦ failed c'
        | panicked c' ↦ panicked c'
        | served c' ↦ served (tell_everyone c')
      ]

  -- The save and what follows it; the registry has the nickname already.
  unfoldable pub save_nickname : Conn F V W → ℕ → Text → Option Text → Served F V W
  unfolding respond confirm_nickname nicknames_snapshot
  save_nickname c req_id device_key normalized =
      let store = nicknames_snapshot c.shared.registry in
      elim (env.save_nicknames store) [
        | some e ↦ respond env c req_id (refused io (codes "save failed: " ++ e))
        | none ↦
            confirm_nickname
              (record c { shared = record c.shared { saved_nicknames = some store } }) req_id
              device_key normalized
      ]

  unfoldable pub apply_nickname : Conn F V W → ℕ → Text → DeviceKey → Option Text → Served F V W
  unfolding respond save_nickname registry_message set_nickname
  apply_nickname c req_id device_key key normalized =
      elim (set_nickname c.shared.registry key normalized) [
        | err e ↦ respond env c req_id (refused unknown_device (registry_message e))
        | ok r ↦ save_nickname (with_registry r c) req_id device_key normalized
      ]

  unfoldable pub answer_nickname : Conn F V W → ℕ → Text → Option Text → Served F V W
  unfolding respond apply_nickname revalidated
  answer_nickname c req_id device_key value = elim (try_new_key device_key) [
    | err e ↦
        respond env c req_id
          (refused invalid_nickname (codes "bad device key: " ++ env.key_error e))
    | ok key ↦ elim (revalidated value) [
      | err e ↦ respond env c req_id (refused invalid_nickname (env.nickname_error e))
      | ok normalized ↦ apply_nickname c req_id device_key key normalized
    ]
  ]
