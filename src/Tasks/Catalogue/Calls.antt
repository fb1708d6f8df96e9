-- ===== src/Tasks/Catalogue/Calls.antt =====
-- The card calls of `Cards` (internal/tasks/tasks.go).
use matrixctrl.Common.{true, false, [], ◌∷◌}
use matrixctrl.Common.Tree.{Value, int}
use matrixctrl.Tasks.Fields.{Kind, Card, val}
use matrixctrl.Tasks.Catalogue.Parts.{zero_field, calls_restart, port_warn}

abbrev pub calls_card : Card
calls_card = record {
  id = "calls";
  title = "Anrufe";
  sub = "Sprach- und Videoanrufe mit Element Call";
  icon = "phone";
  fields =
      ((record zero_field {
        id = "rtc.enabled";
        label = "Anrufe mit Element Call";
        help = "Die Anruf-Dienste (SFU und Anruf-Anmeldung) laufen auf deinem Server.";
        kind = Kind.bool;
        default = Value.bool true;
        restarts = "Die Anruf-Dienste werden gestartet oder entfernt.";
        source = val "matrixRTC.enabled";
      })
        ∷ (record zero_field {
          id = "rtc.hostNetwork";
          label = "Anruf-Server direkt ans Netz (empfohlen)";
          help =
              "Der Anruf-Server lauscht direkt auf den Ports des Servers. Nötig, damit Anrufe zwischen verschiedenen Netzen (Mobilfunk ↔ Glasfaser) zuverlässig klappen.";
          kind = Kind.bool;
          default = Value.bool false;
          restarts = calls_restart;
          source = val "matrixRTC.sfu.hostNetwork";
        })
        ∷ (record zero_field {
          id = "rtc.turn";
          label = "TURN-Relais";
          help =
              "Leitet Anrufe über den Server, wenn ein Netz direkte Verbindungen blockiert (Firmen-WLAN, Hotels).";
          kind = Kind.bool;
          default = Value.bool false;
          restarts = calls_restart;
          source = val "matrixRTC.sfu.exposedServices.turn.enabled";
        })
        ∷ (record zero_field {
          id = "rtc.portTcp";
          label = "Port für Anrufe (TCP)";
          kind = Kind.port;
          default = int 30001;
          restarts = calls_restart;
          warn = port_warn;
          source = val "matrixRTC.sfu.exposedServices.rtcTcp.port";
        })
        ∷ (record zero_field {
          id = "rtc.portUdp";
          label = "Port für Anrufe (UDP)";
          kind = Kind.port;
          default = int 30002;
          restarts = calls_restart;
          warn = port_warn;
          source = val "matrixRTC.sfu.exposedServices.rtcMuxedUdp.port";
        })
        ∷ (record zero_field {
          id = "rtc.portTurn";
          label = "Port für TURN (UDP)";
          kind = Kind.port;
          default = int 30004;
          restarts = calls_restart;
          warn = port_warn;
          source = val "matrixRTC.sfu.exposedServices.turn.port";
        })
        ∷ []);
}
