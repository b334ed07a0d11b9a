-- ===== src/Websocket/Linux/Opening.antt =====
-- linux_websocket.c: opening a stream, and closing it. OpenSSL, libwebsockets, the environment and
-- `malloc` are outside: what they answer are arguments.
use artik_sdk.Prelude.{ℕ, ◌+◌, ◌-◌, Bool, false, Option, none, some, ◌∷◌, ◌==◌, ltb, if◌then◌else◌}
use artik_sdk.Prelude.Counting.{remove_one}
use artik_sdk.Error.{
  ArtikError, s_ok, e_bad_args, e_no_mem, e_websocket_error, e_not_connected, is_ok,
}
use artik_sdk.ArtikList.{ArtikList, Node, add}
use artik_sdk.Websocket.{Config}
use artik_sdk.Websocket.Linux.{
  Data, Interface, World, Stream, Added, minus_one, request_loop, release_loop, removed,
}
use artik_sdk.Websocket.Linux.Watches.{remove_fd_watch}

-- What is held beside the world of the loop: the references to the utils module, and the blocks of
-- interfaces, the contexts of libwebsockets, those of OpenSSL, and the blocks of eventfds.
pub record System : Type 0 where
  pub world : World
  pub utils : ℕ
  pub interfaces : ℕ
  pub contexts : ℕ
  pub ssls : ℕ
  pub fds : ℕ

-- What is answered, in the order in which it is asked: `malloc` for the interface and the protocols,
-- `setup_ssl_ctx`, whether a proxy of the environment has a right address, `lws_create_context`, `malloc`
-- for the eventfds, the loop module, the connection, and `malloc` for the node.
pub record Answers : Type 0 where
  pub interface : Bool
  pub protocols : Bool
  pub ssl : ArtikError
  pub proxy : Bool
  pub context : Bool
  pub fds : Bool
  pub idle : Added
  pub wsi : Option ℕ
  pub node : Option ℕ

-- The error, what `config->private_data` points to, and the system.
abbrev pub Opened : Type 0
Opened = ArtikError × Option Interface × System

-- `sizeof(websocket_node)` where a pointer has eight bytes.
abbrev pub sizeof_node : ℕ
sizeof_node = 272

abbrev pub no_data : Data
no_data = record { watch_id = 0; callback = 0; user_data = 0 }

-- The interface that is zeroed, with the lines up to the idle callback.
abbrev pub new_interface : Config → Interface
new_interface config = record {
  wsi = 0;
  loop_process_id = 0;
  send_message = none;
  receive_message = none;
  timeout_id = minus_one;
  periodic_id = minus_one;
  ping_period = config.ping_period;
  pong_timeout = config.pong_timeout;
  on_close = no_data;
  on_connect = no_data;
  on_receive = no_data;
  on_error = no_data;
  on_connection_error = no_data;
}

-- `loop->add_idle_callback`, whose error is not looked at.
abbrev add_idle_callback : Added → Interface → System → Stream
add_idle_callback (e, id) i s =
    if is_ok e
    then (record i { loop_process_id = id }, record s.world { idles = id ∷ s.world.idles })
    else (i, s.world)

abbrev release_utils : Opened → Opened
release_utils (e, p, s) = (e, p, record s { utils = s.utils - 1 })

-- The label `exit` with an error, without an interface, which leaves `config->private_data` as it is,
-- and with one.
abbrev fail : ArtikError → Option Interface → System → Opened
fail e private_data s = release_utils (e, private_data, s)

abbrev fail_free : ArtikError → System → Opened
fail_free e s = release_utils (e, none, record s { interfaces = s.interfaces - 1 })

-- `artik_list_add`. Where it fails the function returns at once.
abbrev listed : Interface → System → Option (Node Bool) × ArtikList Bool → Opened
listed i s (none, l) = (e_no_mem, some i, s)
listed i s (some n, l) =
    release_utils (s_ok, some i, record s { world = record s.world { requested_node = l } })

-- From the connection on.
abbrev connect : Answers → Stream → System → Option ℕ → Opened
connect a (i, w) s none = fail_free e_websocket_error (record s { world = w })
connect a (i, w) s (some wsi) =
    listed (record i { wsi = wsi }) (record s { world = w })
      (add w.requested_node wsi sizeof_node a.node false)

-- From the block of the eventfds on, with the context created.
abbrev pub attach : Config → Answers → System → Opened
attach config a s =
    if a.fds
    then connect a (add_idle_callback a.idle (new_interface config) s)
        (record s { fds = s.fds + 1 }) a.wsi
    else fail_free e_no_mem s

abbrev create_context : Config → Answers → System → Opened
create_context config a s =
    if a.proxy
    then if a.context
      then attach config a (record s { contexts = s.contexts + 1 })
      else fail_free e_websocket_error s
    else fail_free e_websocket_error s

abbrev setup : Config → Answers → System → Opened
setup config a s =
    if a.protocols
    then if is_ok a.ssl
      then create_context config a (record s { ssls = s.ssls + 1 })
      else fail_free a.ssl s
    else fail_free e_no_mem s

abbrev requested : System → System
requested s = record s { world = record s.world { loops = s.world.loops + 1 }; utils = s.utils + 1 }

-- `private_data` is what `config->private_data` points to before.
unfoldable pub os_websocket_open_stream : Config → Option Interface → Answers → System → Opened
unfolding is_ok add
os_websocket_open_stream config private_data a s =
    if ltb config.ping_period config.pong_timeout
    then fail e_bad_args private_data (requested s)
    else if a.interface
    then setup config a (record (requested s) { interfaces = s.interfaces + 1 })
    else fail e_no_mem private_data (requested s)

abbrev remove_idle_callback : ℕ → Stream → Stream
remove_idle_callback id (i, w) = (i, record w { idles = remove_one id w.idles })

-- The timers, where their period is set.
abbrev remove_timeouts : Stream → Stream
remove_timeouts (i, w) = (
  i,
  record w {
    timeouts = if i.pong_timeout == 0 then w.timeouts else removed i.timeout_id w.timeouts;
  },
)

abbrev remove_periodics : Stream → Stream
remove_periodics (i, w) = (
  i,
  record w {
    periodics = if i.ping_period == 0 then w.periodics else removed i.periodic_id w.periodics;
  },
)

-- What is removed from the loop.
unfoldable pub unregister : Stream → Stream
unfolding remove_one
unregister (i, w) = release_loop (
    remove_periodics (
      remove_timeouts (
        remove_idle_callback i.loop_process_id (
          remove_fd_watch i.on_connection_error.watch_id (
            remove_fd_watch i.on_error.watch_id (
              remove_fd_watch i.on_receive.watch_id (
                remove_fd_watch i.on_connect.watch_id
                  (remove_fd_watch i.on_close.watch_id (request_loop (i, w))))))))))

-- What libwebsockets calls while its context is destroyed are calls of `lws_callback` before this one.
unfoldable pub lws_cleanup : Interface → System → System
unfolding unregister
lws_cleanup i s = record s {
  world = (unregister (i, s.world)).1;
  contexts = s.contexts - 1;
  fds = s.fds - 1;
  ssls = s.ssls - 1;
  interfaces = s.interfaces - 1;
}

-- The error, and what `config->private_data` is. The engine of the secure element is not modelled.
unfoldable pub os_websocket_close_stream : Option Interface → System → Opened
unfolding lws_cleanup
os_websocket_close_stream none s = (e_not_connected, none, s)
os_websocket_close_stream (some i) s = (s_ok, none, lws_cleanup i s)
