-- ===== src/Tasks/Catalogue/Messages.antt =====
-- The cards messages, appearance and bridges of `Cards` (internal/tasks/tasks.go).
use matrixctrl.Common.{true, false, [], ◌∷◌}
use matrixctrl.Common.Tree.{Value, str}
use matrixctrl.Tasks.Fields.{Kind, Card, val, synapse, web}
use matrixctrl.Tasks.Catalogue.Parts.{zero_field, synapse_restart, web_restart}

abbrev pub messages_card : Card
messages_card = record {
  id = "messages";
  title = "Nachrichten & Medien";
  sub = "Dateien, Link-Vorschauen und wie lange etwas aufbewahrt wird";
  icon = "file";
  fields =
      ((record zero_field {
        id = "synapse.maxUpload";
        label = "Größte Datei, die man hochladen kann";
        help =
            "Bilder, Videos und Dateien in Nachrichten. Angabe mit M (Megabyte) oder K (Kilobyte).";
        kind = Kind.size;
        default = str "100M";
        restarts = synapse_restart;
        warn =
            "Sehr große Uploads brauchen auch Platz im Zwischenspeicher von Synapse und können von einem Proxy davor begrenzt werden.";
        source = val "synapse.media.maxUploadSize";
      })
        ∷ (record zero_field {
          id = "synapse.urlPreviews";
          label = "Link-Vorschauen";
          help =
              "Links in Nachrichten zeigen Titel und Bild der Seite. Dein Server ruft die Seite dafür ab — interne Adressen sind gesperrt.";
          kind = Kind.bool;
          default = Value.bool true;
          restarts = synapse_restart;
          source = synapse "url_preview_enabled";
        })
        ∷ (record zero_field {
          id = "synapse.remoteMedia";
          label = "Medien anderer Server zwischenspeichern für";
          help =
              "Bilder und Dateien aus Räumen anderer Server werden lokal zwischengespeichert. Leer: unbegrenzt. Z. B. 90d — danach werden sie bei Bedarf neu geladen.";
          kind = Kind.duration;
          restarts = synapse_restart;
          source = synapse "media_retention.remote_media_lifetime";
        })
        ∷ (record zero_field {
          id = "synapse.redactionRetention";
          label = "Gelöschte Nachrichten noch aufbewahren für";
          help =
              "So lange können Moderatoren den Inhalt gelöschter Nachrichten noch einsehen, danach ist er endgültig weg.";
          kind = Kind.duration;
          default = str "7d";
          restarts = synapse_restart;
          source = synapse "redaction_retention_period";
        })
        ∷ []);
}

abbrev pub appearance_card : Card
appearance_card = record {
  id = "appearance";
  title = "Aussehen";
  sub = "Wie Element Web für deine Nutzer aussieht";
  icon = "sparkle";
  fields =
      ((record zero_field {
        id = "web.brand";
        label = "Name der App";
        help = "Steht im Browser-Tab und in Element Web statt „Element\".";
        kind = Kind.label;
        default = str "Element";
        restarts = web_restart;
        source = web "brand";
      })
        ∷ (record zero_field {
          id = "web.theme";
          label = "Farbschema für neue Nutzer";
          kind = Kind.choice;
          default = str "light";
          restarts = web_restart;
          options =
              record { value = "light"; label = "Hell" }
              ∷ record { value = "dark"; label = "Dunkel" }
              ∷ [];
          source = web "default_theme";
        })
        ∷ []);
}

abbrev pub bridges_card : Card
bridges_card = record {
  id = "bridges";
  title = "Bridges";
  sub =
      "Hookshot verbindet Räume mit Webhooks und Feeds — andere Bridges stehen auf der Seite Bridges";
  icon = "globe";
  fields =
      ((record zero_field {
        id = "hookshot.enabled";
        label = "Hookshot";
        help =
            "Die Bridge von Element für Webhooks, RSS-/Atom-Feeds, GitHub, GitLab und Jira. Läuft als eigener Dienst; im Raum lädt man @hookshot ein.";
        kind = Kind.bool;
        default = Value.bool false;
        restarts = "Hookshot wird gestartet; Synapse startet neu, um die Bridge zu kennen.";
        source = val "hookshot.enabled";
      })
        ∷ (record zero_field {
          id = "hookshot.webhooks";
          label = "Eingehende Webhooks";
          help =
              "Andere Dienste schicken Nachrichten per HTTP in einen Raum — Monitoring, Formulare, Skripte. Die Adresse vergibt Hookshot pro Webhook.";
          kind = Kind.bool;
          default = Value.bool false;
          restarts = "Hookshot startet neu.";
          source = record {
            values = "";
            component = "hookshot";
            key = "generic.enabled";
            json = false;
          };
        })
        ∷ (record zero_field {
          id = "hookshot.feeds";
          label = "RSS- und Atom-Feeds";
          help = "Neue Einträge eines Feeds erscheinen als Nachricht im Raum.";
          kind = Kind.bool;
          default = Value.bool false;
          restarts = "Hookshot startet neu.";
          source = record {
            values = "";
            component = "hookshot";
            key = "feeds.enabled";
            json = false;
          };
        })
        ∷ []);
}
