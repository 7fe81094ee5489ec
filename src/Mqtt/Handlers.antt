-- ===== src/Mqtt/Handlers.antt =====
-- The registration of the handlers of the MQTT service (MqttService/MqttService.cpp).
use shapeware.Base.{none, some}
use shapeware.Mqtt.State.{Handler, Service}

unfoldable pub register_message_handler : Handler → Service → Service
register_message_handler h s = record s { mqtt_message_handler_func = some h }

unfoldable pub unregister_message_handler : Service → Service
unregister_message_handler s = record s { mqtt_message_handler_func = none }

unfoldable pub register_message_str_handler : Handler → Service → Service
register_message_str_handler h s = record s { mqtt_message_str_handler_func = some h }

unfoldable pub unregister_message_str_handler : Service → Service
unregister_message_str_handler s = record s { mqtt_message_str_handler_func = none }

unfoldable pub register_on_connect_handler : Handler → Service → Service
register_on_connect_handler h s = record s { mqtt_on_connect_handler_func = some h }

unfoldable pub unregister_on_connect_handler : Service → Service
unregister_on_connect_handler s = record s { mqtt_on_connect_handler_func = none }

unfoldable pub register_on_subscribe_handler : Handler → Service → Service
register_on_subscribe_handler h s = record s { mqtt_on_subscribe_handler_func = some h }

unfoldable pub unregister_on_subscribe_handler : Service → Service
unregister_on_subscribe_handler s = record s { mqtt_on_subscribe_handler_func = none }

unfoldable pub register_on_disconnect_handler : Handler → Service → Service
register_on_disconnect_handler h s = record s { mqtt_on_disconnect_handler_func = some h }

unfoldable pub unregister_on_disconnect_handler : Service → Service
unregister_on_disconnect_handler s = record s { mqtt_on_disconnect_handler_func = none }
