-- ===== src/Tasks/Catalogue/Parts.antt =====
-- The helpers of `Cards` and `workerFields` in internal/tasks/tasks.go, and the cards of the resources
-- and the workers.
use Prim.Native.String.{◌++◌ as append}
use matrixctrl.Common.{String, false, List, [], ◌∷◌, ◌++◌}
use matrixctrl.Common.Tree.{Value, null}
use matrixctrl.Tasks.Fields.{Kind, Field, Card, val}

-- A `Field` literal leaves a field that it does not name at its zero value.
abbrev pub zero_field : Field
zero_field = record {
  id = "";
  label = "";
  help = "";
  kind = Kind.bool;
  default = null;
  restarts = "";
  warn = "";
  locked = "";
  group = "";
  options = [];
  source = record { values = ""; component = ""; key = ""; json = false };
}

abbrev pub synapse_restart : String
synapse_restart = "Synapse startet neu (etwa 30 Sekunden keine Nachrichten)."

abbrev pub calls_restart : String
calls_restart = "Der Anruf-Server startet neu — laufende Anrufe brechen ab."

abbrev pub web_restart : String
web_restart = "Element Web wird neu ausgeliefert; Nutzer sehen es nach dem Neuladen."

abbrev pub port_warn : String
port_warn = "Der neue Port muss in der Firewall deines Servers (und beim Hoster) offen sein."

-- `f` of `resources`.
abbrev resource_field : String → String → String → String → String → Field
resource_field component name restarts suffix label = record zero_field {
  id = append component (append ".resources." suffix);
  label = label;
  kind = Kind.quantity;
  group = name;
  restarts = restarts;
  source = val (append component (append ".resources." suffix));
}

abbrev pub resources : String → String → String → List Field
resources component name restarts =
    resource_field component name restarts "requests.memory" "Speicher reserviert"
    ∷ resource_field component name restarts "limits.memory" "Speicher höchstens"
    ∷ resource_field component name restarts "requests.cpu" "CPU reserviert"
    ∷ resource_field component name restarts "limits.cpu" "CPU höchstens"
    ∷ []

abbrev pub host : String → String → String → String → Field
host id path label help = record zero_field {
  id = id;
  label = label;
  help = help;
  kind = Kind.text;
  restarts = "Die Adresse wird umgestellt; DNS und Zertifikat müssen für die neue Adresse passen.";
  warn = "Eine neue Adresse funktioniert erst, wenn ihr DNS-Eintrag auf diesen Server zeigt.";
  source = val path;
}

abbrev pub res : List Field
res =
    resources "synapse" "Synapse (Homeserver)"
      "Synapse startet neu (etwa 30 Sekunden keine Nachrichten)."
    ++ resources "postgres" "Datenbank (PostgreSQL)"
        "Die Datenbank startet neu — alle Dienste warten kurz."
    ++ resources "matrixAuthenticationService" "Anmeldung (MAS)" "Die Anmeldung startet neu."

-- `w` of `workerFields`.
abbrev worker : String → String → String → String → Field
worker typ label help group = record zero_field {
  id = append "synapse.workers." typ;
  label = label;
  help = help;
  kind = Kind.bool;
  default = Value.bool false;
  group = group;
  restarts = "Synapse startet neu; der Worker kommt als eigener Pod dazu.";
  warn =
      "Jeder Worker ist ein eigener Synapse-Prozess — rechne mit 100–300 MB Speicher. Die Vorschau zeigt, ob der Knoten das hergibt.";
  source = val (append "synapse.workers." (append typ ".enabled"));
}

abbrev pub worker_fields : List Field
worker_fields =
    worker "synchrotron" "Sync"
      "Beantwortet das ständige Nachfragen der Apps nach Neuigkeiten — bei vielen gleichzeitig verbundenen Geräten die größte Last."
      "Apps"
    ∷ worker "sliding-sync" "Sliding Sync" "Dasselbe für die neuen Element-Apps (Element X)." "Apps"
    ∷ worker "client-reader" "Lesen" "Verlauf, Mitgliederlisten, Profile." "Apps"
    ∷ worker "event-creator" "Senden" "Nachrichten und Raumänderungen annehmen." "Apps"
    ∷ worker "encryption" "Verschlüsselung" "Schlüsselaustausch zwischen Geräten." "Apps"
    ∷ worker "media-repository" "Medien"
        "Hochladen, Herunterladen, Vorschaubilder, Link-Vorschauen." "Apps"
    ∷ worker "federation-inbound" "Föderation empfangen" "Nimmt an, was andere Server schicken."
        "Föderation"
    ∷ worker "federation-reader" "Föderation beantworten"
        "Beantwortet Abfragen anderer Server: Schlüssel, Geräte, Raumzustand." "Föderation"
    ∷ worker "federation-sender" "Föderation senden"
        "Schickt an andere Server — hilft, wenn deren Warteschlange wächst." "Föderation"
    ∷ worker "pusher" "Push" "Benachrichtigungen an Handys." "Sonstiges"
    ∷ worker "background" "Hintergrundaufgaben" "Aufräumen, Statistiken, Zähler." "Sonstiges"
    ∷ worker "receipts" "Lesebestätigungen" "" "Sonstiges"
    ∷ worker "typing-persister" "Tipp-Anzeige" "" "Sonstiges"
    ∷ worker "account-data" "Kontodaten" "Einstellungen, die Apps auf dem Server ablegen."
        "Sonstiges"
    ∷ worker "user-dir" "Nutzerverzeichnis" "Die Suche nach Personen." "Sonstiges"
    ∷ []

abbrev pub resources_card : Card
resources_card = record {
  id = "resources";
  title = "Ressourcen & Kapazität";
  sub = "Wie viel Speicher und Rechenzeit jeder Dienst bekommt";
  icon = "cpu";
  fields = res;
}

abbrev pub workers_card : Card
workers_card = record {
  id = "workers";
  title = "Synapse-Worker";
  sub =
      "Teile von Synapses Arbeit in eigene Prozesse auslagern — ob es sich lohnt, sagt Worker-Insights";
  icon = "activity";
  fields = worker_fields;
}
