-- ===== src/Lib.antt =====
-- AELEBDWIF01_dongle: the firmware of a dongle between a ventilation unit and an app.
--
-- The dongle talks to the unit's board over a serial line, mirrors the unit's EEPROM image, and
-- offers the image and the unit's measures to an app over BLE and MQTT. The model covers the serial
-- side, from the bytes of the UART to the task that keeps the link, the writing of an image over
-- BLE, the provisioning of the Wi-Fi over BLE, the Wi-Fi connection with the manager of its
-- credentials, the messages over MQTT, the download of the unit's firmware, and of the application
-- itself the light, the look for an update of the dongle and its serial number.
--
-- Eeprom models include/eeprom_data_struct.h, the packed image `S_EEPROM`, as the list of its
-- members with their sizes, and the sections of include/protocol_serial.h, whose addresses are
-- computed from that list as `offsetof` does. Eeprom/Sections has where they lie.
--
-- Uart models src/Uart1.c: `uart_event` is a round of `uart_event_task`, `rx_claim` is
-- `Uart1_RxClaim`. The receive cache holds one data event; the next replaces it.
--
-- Serial models src/WBM_Serial.c. Its record holds the receiver's globals. Serial/Receive has
-- `Serial_available`, `Serial_read` and `Read_Message`, the last cut into the download of a message
-- and its checks; Serial/Send has `Write_Message`, Serial/Checksum `calc_cksum_16`, and
-- Serial/Requests the `Com_SendRequest_*` functions. A request builds its message in an array on the
-- stack that nothing initialises: its contents are an argument, and the result is what goes to
-- `Uart_Write`, or `none` for an access out of bounds. Serial/Messages compares the requests with
-- the layout of the protocol, Serial/Transfer follows a message through cache and buffer,
-- Serial/Integrity, Serial/Corruption and Serial/Limits say what the receiver takes and refuses.
--
-- UnitComm models the task of src/unit_comm.c with the enumerations of include/CL_WBM.h. The record
-- `Comm` holds its globals, `Env` what surrounds it: the readings of `Millis()` by their number, the
-- stack's contents, and whether `fseek` works. The calls that leave the task (UART, GPIO, BLE, MQTT)
-- are appended to a trace. UnitComm/Connect is `Connect_To_Unit`, UnitComm/Boot its boot loader
-- states, UnitComm/Connected and UnitComm/Schedule are `case WBM_Connected` of `Unit_event_task`,
-- UnitComm/Parse the four parsers, UnitComm/Task the loop. UnitComm/Failure, UnitComm/Stalled,
-- UnitComm/Stall, UnitComm/Drain, UnitComm/Weights, UnitComm/Answers, UnitComm/Firmware,
-- UnitComm/Mirror, UnitComm/Counters and UnitComm/Alarms have what follows from them.
--
-- Ble models two handlers of src/ble.c, `prepare_write_event_env` and `exec_write_event_env`, by which
-- the app sends an image in chunks: its bytes go to the unit by the requests that UnitComm/Schedule
-- serves. What `malloc` returns is an argument. Ble/Image has what becomes of an image.
--
-- Ble/Service models how the service of that file starts: the registration with the device's name,
-- the advertising, which the end of a connection starts again, and the event of the complete table,
-- which sets the image to zero. Ble/Attributes
-- is the table `gatt_db` by the indices of include/ble.h; Ble/Service/Handles and
-- Ble/Service/Advertising have what follows.
--
-- Ble/Provision models the provisioning of the same file: the packets of the SSID and the password,
-- `handle_write_event`, the states that the app reads, and the events and the timer that change
-- them. Its record holds the manager's, since the handlers write `WIFI_SSID` and `WIFI_PASSWORD` and
-- call `mqtt_enqueue_wifi_credentials`. Ble/Provision/Events has the events. Ble/Provision/Packets
-- and Ble/Provision/Collected follow the chunks, Ble/Provision/Requested the request for a
-- connection, Ble/Provision/Provisioned the whole; and Ble/Provision/Skipped and
-- Ble/Provision/Overwritten what the manager then does with it.
--
-- Wifi models src/wifi_connect.c, the Wi-Fi manager of src/mqtt_app.c and the storage of the
-- credentials in src/main.c. Wifi/Connect has `wifi_connect`, `wifi_disconnect`, `start` and `stop`;
-- its record `Net` holds the file's variables and what was asked of the ESP-IDF and not undone, and
-- the answers of the ESP-IDF are the fields of `ConnectEnv` and, for `stop`, of `StopEnv`:
-- what cannot be stopped or released stays. Wifi/Resources and Wifi/Release follow
-- what is held, Wifi/Works when a connection works. Wifi/Storage is `nvs_read_string` and
-- `nvs_write_string`, with the answers of the NVS in `NvsEnv`. Wifi/Queue is the interface of the
-- FreeRTOS queue, its calls and their laws, which Wifi/Manager (`mqtt_enqueue_wifi_credentials`, and
-- the loop that empties the queue) and Wifi/Apply (`apply_wifi_request`, a round of `mqtt_task`)
-- take as a parameter. Wifi/Manager/Requests, Wifi/Apply/Outcome, Wifi/Apply/Branches,
-- Wifi/Apply/Rounds and Wifi/Apply/Restart have what follows from them.
--
-- Mqtt models what src/mqtt_app.c publishes: `publish_debug_message`, with the array in which it
-- builds the JSON text, and `mqtt_publish_with_suffix`. Mqtt/Text compares it with the text.
-- Mqtt/Events is `mqtt_event_handler`: the client of the ESP-IDF is the sequence of its events, and
-- a message comes with what lies in memory from its data on, since the handler does not look at its
-- length. Mqtt/Events/Readiness follows the confirmations, Mqtt/Events/Topics the comparison of the
-- topics, and Mqtt/Events/Messages what a message does.
--
-- Download models the download of the unit's firmware in src/main.c, `_http1_event_handler`: an
-- event of the HTTP client is an operation, and a body is the list of its pieces. The file is the
-- list of its bytes; whether it opens for writing and what `fwrite` adds are fields of `FileEnv`.
-- Download/Stored follows the pieces through the buffer, Download/Replaced has what a download
-- leaves.
--
-- Main models the rest of src/main.c. Main/Led is `Led_TimerCallback`, with what it reads in
-- `Conditions`; Main/Led/Signals describes the signals of the light by their periods, and
-- Main/Led/Runs and Main/Led/Shown compare the two. Main/Update is `_http_event_handler` with
-- `check_update_task`; what cJSON finds in a text and whether `esp_https_ota` works are arguments.
-- Main/Update/Joined and Main/Update/Text follow the text. Main/Boot is `ota_boot_task`, with the
-- readings of the flag and the clock by their number; Main/Start is the serial number that
-- `app_main` composes, and Main/Init is `app_main` with `ble_app_init` of src/ble_app.c,
-- `unit_comm_start` of src/unit_comm.c and `Uart1_Initialize` of src/Uart1.c, from what each call of
-- the ESP-IDF returns; Main/Init/Order has when the tasks are started.
--
-- Numbers: bytes and words are natural numbers; the wrap-around of a uint8_t, a uint16_t or a
-- uint32_t is written out where the source computes with one. Temperatures are integers in tenths of
-- a degree in place of floats. `none` as the result of an operation is undefined behaviour of the
-- source: a copy past the end of a buffer.
--
-- Loops that the source bounds are recursions on the number of rounds or on a list. `task_rounds`,
-- `send_blocks` and the `exchanges` of UnitComm/Answers take the number of rounds as an argument; 35
-- exchanges are enough for four reads, six buttons, and five writes with the four reads that each can
-- lead to. The loop that empties the queue of requests has fuel, and one more than the queue's
-- contents is enough. The wait of `ota_boot_task` has fuel too: 361 delays of 250 ms are more than its
-- 90 seconds.
--
-- Not modelled: delays and logging, the set-up of peripherals but for its failure at the start,
-- src/gpio_api.c, which only calls the ESP-IDF, and the parameters of the pairing and of the
-- advertisement in src/ble.c. Tasks that interrupt one another in the middle of an operation are not
-- modelled either: an operation runs to its end.
pub mod Prelude
pub mod Eeprom
pub mod Uart
pub mod Serial
pub mod UnitComm
pub mod Wifi
pub mod Mqtt
pub mod Download
pub mod Ble
pub mod Main
