-- ===== src/Cloud/Api.antt =====
-- artik_cloud.c: the table `cloud_module`, less its websocket functions, as one function of the call.
use artik_sdk.Prelude.{Bool, Option}
use artik_sdk.Prelude.Int.{ℤ}
use artik_sdk.Prelude.Text.{Bytes}
use artik_sdk.Cloud.Http.{Ssl, HttpModule, State, Resources, Reply}
use artik_sdk.Cloud.Functions
use artik_sdk.Cloud.Functions.{Form}

-- The calls, with their arguments behind the form and the SSL configuration. A registration takes
-- the configuration of the secure element: NULL, or whether its `key_id` is set.
pub data Command : Type 0 where
  get_current_user_profile : Form → Option Ssl → Option Bytes → Command
  get_user_devices get_user_device_types :
      Form → Option Ssl → Option Bytes → ℤ → Bool → ℤ → Option Bytes → Command
  get_user_application_properties :
      Form → Option Ssl → Option Bytes → Option Bytes → Option Bytes → Command
  get_device get_device_properties :
      Form → Option Ssl → Option Bytes → Option Bytes → Bool → Command
  get_device_token update_device_token delete_device_token delete_device :
      Form → Option Ssl → Option Bytes → Option Bytes → Command
  add_device :
      Form → Option Ssl → Option Bytes → Option Bytes → Option Bytes → Option Bytes → Command
  send_message send_action set_device_server_properties :
      Form → Option Ssl → Option Bytes → Option Bytes → Option Bytes → Command
  sdr_start_registration sdr_complete_registration :
      Form → Option Bool → Option Bytes → Option Bytes → Command
  sdr_registration_status : Form → Option Bool → Option Bytes → Command

module _ {W : Type 0} where
  unfoldable pub run_command : HttpModule W → Resources → Command → State W → Reply W
  run_command http res (get_current_user_profile f ssl token) s =
      Functions.get_current_user_profile http res f ssl token s
  run_command http res (get_user_devices f ssl token count properties offset user) s =
      Functions.get_user_devices http res f ssl token count properties offset user s
  run_command http res (get_user_device_types f ssl token count shared offset user) s =
      Functions.get_user_device_types http res f ssl token count shared offset user s
  run_command http res (get_user_application_properties f ssl token user app) s =
      Functions.get_user_application_properties http res f ssl token user app s
  run_command http res (get_device f ssl token device properties) s =
      Functions.get_device http res f ssl token device properties s
  run_command http res (get_device_properties f ssl token device timestamp) s =
      Functions.get_device_properties http res f ssl token device timestamp s
  run_command http res (get_device_token f ssl token device) s =
      Functions.get_device_token http res f ssl token device s
  run_command http res (update_device_token f ssl token device) s =
      Functions.update_device_token http res f ssl token device s
  run_command http res (delete_device_token f ssl token device) s =
      Functions.delete_device_token http res f ssl token device s
  run_command http res (delete_device f ssl token device) s =
      Functions.delete_device http res f ssl token device s
  run_command http res (add_device f ssl token user dt name) s =
      Functions.add_device http res f ssl token user dt name s
  run_command http res (send_message f ssl token device message) s =
      Functions.send_message http res f ssl token device message s
  run_command http res (send_action f ssl token device action) s =
      Functions.send_action http res f ssl token device action s
  run_command http res (set_device_server_properties f ssl token device properties) s =
      Functions.set_device_server_properties http res f ssl token device properties s
  run_command http res (sdr_start_registration f se type vendor) s =
      Functions.sdr_start_registration http res f se type vendor s
  run_command http res (sdr_complete_registration f se reg reg_nonce) s =
      Functions.sdr_complete_registration http res f se reg reg_nonce s
  run_command http res (sdr_registration_status f se reg) s =
      Functions.sdr_registration_status http res f se reg s
