-- ===== src/Lib.antt =====
-- The gateway's own code: the daemons that take messages from the sensor nodes' radios, and the server
-- that publishes them.
--
-- A node is an Arduino or ESP sketch under src/node or src/esp. It sends a text in JSON by LoRa, by an RF24
-- radio, by Bluetooth to a serial line, or on request over SPI or I2C. The receiver daemon,
-- src/service_user_space/client_SPI_Lora_RF24/Lora_RF24/RPI_Receive/lora_rf24_receive.cpp, listens in turn
-- to the modems and radios behind a multiplexer, publishes the texts to an MQTT broker, and sends those
-- of LoRa nodes by TCP to the server, src/mqtt_client/mqtt_client.c, as `struct Data` of
-- src/common/data.h. The modems are driven by LoRa.c and LoRa.h, one folder above the daemon's source.
--
-- Files:
--   Prelude: names of the libraries, lists and integers over the native numbers, facts on bytes. A text in
--     a `char` array ends at the first 0; what C reads past the end of an array without a 0 is not modelled.
--   Data: data.h, as the 304 bytes of `struct Data`.
--   Mqtt: `publish_mess`, as the message that the MQTT library is given. Sharing takes its calls apart, which share
--     the global `pubmsg`, as steps of a relation.
--   Lora: the driver. Regs has LoRa.h; Bus the calls of pigpio and pthreads as a record of functions on
--     a state of the world, and as `Chip` the documented behaviour of the modem behind the SPI bus; Spi the
--     register access; Setup the setters; Packet `LoRa_calculate_packet_t`; Radio `LoRa_begin` and the other
--     operations and the interrupt handlers. Sim is a simulated modem that meets `Chip`. The children of
--     Setup and Radio are named for what they prove.
--   Server: `run_socket_tcp` and `msgarrvd`, with what `poll`, `accept` and `recv` return as the input of a
--     pass. An access outside the array of 20 entries is `none`.
--   Receiver: the daemon's loop, its callbacks and its timer handlers. `parse` stands for the JSON library.
--     A wait takes the list of the events to come: a packet, an alarm, or a packet whose handling an alarm
--     interrupts. A wait that the events do not end is `none`. Forward follows a message to the server. Threads
--     are the callback's threads, which share the driver's buffer and the globals of the JSON library, as steps of a
--     relation; the load and the store of `countLora++` are two steps.
--   Start: how the daemons begin: a start of `main` exits, returns or comes to its loop.
--   Node: clientSPI.c of src/service_user_space/clientSPI, the framing of the texts of a node on the SPI bus,
--     and the watch on a node that does not answer. An access past the end of the buffer of 50 bytes is `none`.
--     The input of a run is the sequence of the requests and the characters.
--   SpiClient: spiclient.c of the same folder, an older daemon. The thread and `main` are steps of a relation,
--     cut at the mutex and at the select pin.
--   I2c: clientI2C.c of src/service_user_space/clientI2C, the scan for a node, the order of the requests, and
--     the timer, the thread and `main` as steps of a relation.
--   Bench: testRF.cpp and testLR.cpp beside the receiver daemon, which number the packets of one radio.
--   Delay: `delay` of client.c and detect_usb.c, on fuel: the number of readings of the clock.
--   Sensor: the nodes. Spi is nodeSPI/SPIuser.ino, I2c nodeI2C/I2Cuser.ino, Bluetooth bluetooth_master.ino, Lora
--     Lora_transmister.ino, Rf24 Node_RF24_V1.1.ino, and Wifi hostpost.ino, which publishes without the gateway.
--     The texts of numbers are those of a record `Printing`, of which it is known that they hold no 0; the
--     values of the sensors are inputs. `Float` and its comparison are parameters. What a
--     node sends is followed to the daemon that takes it.
--   Uart: ClientUART.c of src/service_user_space/clientUART, the reads from a Bluetooth node, and the alarms that
--     open the serial line anew.
--
-- Functions keep their names in antt's spelling: `LoRa_begin` is `lora_begin`, `rxDoneISRf` is
-- `rx_done_isr_f`. Loops are structural recursion: the `for` loop of the server over the number of rounds
-- left, which is exact since the number of entries changes only where the loop ends; the waits over the
-- events, the framing and the reads over what is received, the scan over the 128 addresses. `delay`, the SPI
-- node's `transmit` and `set_up_wifi` run on fuel: as many readings of the clock as come before the
-- end of the wait, as many rounds as the text has characters, and 21 tests of the connection are enough.
--
-- Numbers: registers and bytes are below 256 where the code stores them; `freq` is a whole number of Hz,
-- and the times on air are exact fractions in place of `double`. Whether a `char` is signed is a parameter
-- of the SNR.
--
-- Not modelled: the printing; the RF24 driver, the timers, the JSON, MQTT and pigpio libraries and the copies
-- of other projects' code; the loops of client.c, which does not compile
-- against data.h, and of detect_usb.c; the reading of the sensors in the three sketches with marks of a merge
-- around it; the set-up of the nodes, which is calls of libraries; the sketch on the UART and the trials
-- under src/esp, which no daemon speaks with.
pub mod Prelude
pub mod Data
pub mod Mqtt
pub mod Start
pub mod Sensor
pub mod Bench
pub mod Delay
pub mod SpiClient
pub mod Lora
pub mod Server
pub mod Receiver
pub mod Node
pub mod I2c
pub mod Uart
