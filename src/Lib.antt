-- ===== src/Lib.antt =====
-- Verification library of the ARTIK SDK, a C library that gives applications the devices of the
-- ARTIK boards through modules of functions. Paths are from the root of the repository.
--
-- The parts and the files that model them:
-- * inc/base/artik_error.h, the codes and `error_msg`: Error.
-- * inc/base/artik_list.h, the linked list in which every module keeps its handles: ArtikList, with
--   one function for each `artik_list_` function. A list is the chain of its nodes in the order of
--   `next`; a node keeps its address, and 0 is NULL. What `malloc` returns is an argument, the calls
--   of `clear` and `free` are a list of events, and a fault is `none`.
-- * src/modules/systemio/{pwm,i2c,serial,spi,gpio}/artik_*.c, tables of open devices over the list:
--   SystemIo/Handles has the request, the release and the other operations that these files have in
--   common, over the `os_` layer as a record of functions (`Driver`); SystemIo/Pwm, I2c, Serial, Spi
--   and Gpio/Table fill it in. SystemIo/Adc has artik_adc.c, whose request is ordered differently.
--   SystemIo/Handles/Spec is the table that they promise.
-- * src/modules/systemio/gpio/linux_gpio.c, the `os_` layer of GPIO: SystemIo/Gpio, over the files of
--   /sys/class/gpio, whose answers are a list; Gpio/Callback has the change callback, over counters
--   of what the process holds.
-- * src/modules/systemio/pwm/linux_pwm.c, the `os_` layer of PWM: SystemIo/Pwm/Linux, over the files of
--   /sys/class/pwm, whose answers are lists, with the descriptors that are open. The error codes of
--   `errno` are the numbers of Linux.
-- * src/modules/systemio/adc/linux_adc.c, the `os_` layer of ADC: SystemIo/Adc/Linux, over what open,
--   read and `strtoul` give.
-- * src/modules/base/utils/tizenrt_utils.c and artik_utils.c, the URI parser: Uri. The loop has the
--   length of the text as its fuel, since each round passes over one byte at least.
-- * src/modules/base/loop/tizenrt_loop.c, the loop of the TizenRT build: Loop/Vector has the growing
--   vector of pointers, and Loop/Watchers the timeouts, periodic timers, watches and idle callbacks
--   that stand in such vectors. The four sets of functions are alike, so that one state stands for
--   each kind; a clean-up is a recursion over the slots from the last to the first.
-- * src/modules/base/loop/linux_loop.c, the loop of the Linux build: Loop/Linux, with the blocks that it
--   allocates, over GLib's main context as a record of functions with the laws that GLib documents
--   (Loop/Linux/Context). What runs inside a callback of the application is not part of a step.
-- * src/modules/base/module/linux_module.c, the loader of modules: Modules, with the list of requests,
--   the names and the open libraries, over dlopen, dlsym and malloc as answers to each request;
--   Modules/Platform has the platform and its table of modules. A request that fails behind
--   `artik_list_add` is `none` with the state that it leaves.
-- * src/modules/connectivity/cloud/artik_cloud.c, the client of the cloud services over HTTP: Cloud/Text
--   has the URLs and bodies, Cloud/Http the calls of the HTTP module and its answers, Cloud/Requests
--   the functions with a leading underscore, Cloud/Functions the functions of the module in their two
--   forms, and Cloud/Api the table as one function. Cloud/Rules is the rule by which one reasons on all
--   of them. Cloud/Stream has the stream of messages over the websocket module, with the references to
--   that module: a call through it when the last one has been released is a fault. The four functions
--   that send differ in the function of the HTTP module only, and are one.
-- * src/modules/base/time/artik_time.c and linux_time.c, the order of dates, the clock and the
--   alarms: Time, over libc's calendar and the loop module as parameters (`Libc`); Time/Dates has dates
--   as timestamps, the time read, and the alarm at a date, which reads the clock twice.
-- * src/modules/connectivity/network/{common_network,linux_network,artik_network}.c, whether an
--   address answers: Network/Checksum and Network/Echo have the ICMP packets, Network/Watch one watch
--   as a machine whose events are the timers, the resolver's answers, the packets and the links
--   (Watch/Step), Network/Registry the global with its sockets and its list of watches, Network/Online
--   the call that asks once, and Network/PublicIp the public address. A round of the loop of
--   Network/Online is one element of a list. The copy of an address is taken to succeed.
-- * src/modules/connectivity/http/common_http.c, the copies of arguments: Http, over a count of blocks.
-- * src/modules/connectivity/websocket/artik_websocket.c, the handles of streams: Websocket, over its
--   `os_` layer and the URI parser; Websocket/Request and Release have it with the parser of Uri.
-- * src/modules/connectivity/websocket/linux_websocket.c, the layer below it on Linux: Websocket/Linux
--   has the state of one stream (the interface, and a world of what the loop module holds for it and what
--   libwebsockets is told), `lws_callback` by its reasons, and sending; Websocket/Linux/Watches the
--   callbacks of the application and the pings, Websocket/Linux/Opening opening and closing. The steps of
--   a stream in Websocket/Linux/Balance are those in which the loop grants what it is asked for; the
--   calls of Websocket/Linux/Sending are all of them, with any answer. A write to an eventfd and a request
--   for the loop module are taken to succeed. What `setup_ssl_ctx`, the proxy of the environment and
--   libwebsockets answer to an opening are its `Answers`.
--
-- Bounds: an address, a handle, a file offset and an unsigned value are natural numbers; what is 16
-- or 32 bits wide in the source is reduced where it can wrap (`vector_grow`, the 32 bit `strtol`,
-- `clz32`, the delay of an alarm), and a test of an `unsigned int` as an `int` reads 2 ^ 31 and more
-- as negative. The offset in a URI is an `int` in the source and a natural number here, so a URI is
-- taken to be shorter than 2 ^ 31 bytes. Pointers have eight bytes in the sizes of nodes.
--
-- Prelude has the names that the modules share, the Boolean tests, texts and the lemmas on lists.
--
-- Not modelled: the `os_` layers of the modules but GPIO, PWM and ADC (device input and output,
-- parameters here), the wrappers of other libraries (Bluetooth, libcurl, CoAP, LWM2M, MQTT,
-- the websockets of TizenRT, Wi-Fi, ZigBee, media), the device information of the loader, the network's interfaces and DHCP,
-- the copies of other projects (libcoap, wpa_supplicant's client, NuttX's netlib and web client), log
-- output and the C++ bindings.
pub mod Prelude
pub mod Error
pub mod ArtikList
pub mod SystemIo
pub mod Uri
pub mod Loop
pub mod Time
pub mod Cloud
pub mod Modules
pub mod Network
pub mod Http
pub mod Websocket
